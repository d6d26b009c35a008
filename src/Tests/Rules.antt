-- ===== src/Tests/Rules.antt =====
-- A rule, its condition and a firing of it.
use intelligent_rag_framewor.Prelude.{
  ℕ, ◌+◌, ◌*◌, ℤ, pos, negsuc, ◌≡◌, refl, some, [], ◌∷◌, ok, ◌==◌, int_eq, leb_ℤ, ltb_ℤ, eqb_ℤ,
  arith,
}
use intelligent_rag_framewor.Floats.Fixed.{fixed}
use intelligent_rag_framewor.Value.{Value, Fields}
use intelligent_rag_framewor.Value.Comparison.{Number, Numbers}
use intelligent_rag_framewor.Types.{RuleDefinition}
use intelligent_rag_framewor.Types.ClaimStatus
use intelligent_rag_framewor.Engine.State.{Engine}
use intelligent_rag_framewor.Engine.Rules.{new_stats}
use intelligent_rag_framewor.Condition.{
  ConditionTree, ConditionTrees, Trace, result_of, evaluate_condition,
  evaluate_condition_with_trace,
}
use intelligent_rag_framewor.Condition.Agreement.{evaluate_condition_total}
use intelligent_rag_framewor.Runtime.{fire_rule_core, RuleOutputTemplate}
use intelligent_rag_framewor.Runtime.Firing.{Fires, fire_rule_core_lem}
use intelligent_rag_framewor.Runtime.Steps.{fire_rule_core-IsValid}
use intelligent_rag_framewor.Session.{Op, perform}
use intelligent_rag_framewor.Session.Refinement.{perform-IsValid}
use intelligent_rag_framewor.Spec.Valid.{IsValid}
use intelligent_rag_framewor.Tests.Branches.{open_state, open_state-IsValid}

-- in ten-thousandths, as the floats of `Floats/Fixed.antt`
abbrev pub scaled : Number ℕ → ℤ
scaled (Number.int (pos n)) = pos (n * 10000)
scaled (Number.int (negsuc n)) = negsuc (n * 10000 + 9999)
scaled (Number.float x) = pos x

pub scaled-equal : (a b : ℤ) → (scaled (Number.int a) == scaled (Number.int b)) ≡ (a == b)
unfolding eqb_ℤ
scaled-equal (pos a) (pos b) = ground arith
scaled-equal (pos a) (negsuc b) = ground arith
scaled-equal (negsuc a) (pos b) = ground arith
scaled-equal (negsuc a) (negsuc b) = ground arith

instance abbrev pub fixed_numbers : Numbers ℕ
fixed_numbers = record {
  equal = λ a b. scaled a == scaled b;
  less = λ a b. ltb_ℤ (scaled a) (scaled b);
  at_most = λ a b. leb_ℤ (scaled a) (scaled b);
  equal_int = scaled-equal;
}

-- {"all": [{"field": "port", "op": "ge", "value": 22}, {"field": "os", "op": "eq", "value": "linux"}]}
abbrev condition : ConditionTree ℕ
condition = ConditionTree.combinator "all" (
    ConditionTrees.child
      (ConditionTree.predicate (record { field = "port"; op = "ge"; value = Value.int (pos 22) }))
      (ConditionTrees.child
        (ConditionTree.predicate (record { field = "os"; op = "eq"; value = Value.str "linux" }))
        ConditionTrees.nil))

abbrev context : Fields ℕ
context =
    Fields.field "port" (Value.int (pos 443)) (Fields.field "os" (Value.str "linux") Fields.end)

evaluate_condition_total_example :
    (t : Trace ℕ) × (evaluate_condition_with_trace condition context ≡ ok t)
    × (evaluate_condition condition context ≡ ok (result_of t))
evaluate_condition_total_example =
    evaluate_condition_total condition context (refl, (refl, (refl, tt)))

abbrev definition : RuleDefinition ℕ
definition = record {
  id = pos 9;
  version = pos 1;
  maturity = pos 0;
  prior_confidence = record { value = 7000 };
}

abbrev output : RuleOutputTemplate ℕ
output = record {
  claim_type = pos 2;
  reason_code = pos 3;
  status = ClaimStatus.candidate;
  base_confidence = record { value = 6000 };
}

abbrev ruled_state : Engine ℕ
ruled_state = record open_state {
  rule_definitions = ((pos 9, pos 1), definition) ∷ [];
  rule_stats = ((pos 9, pos 1), new_stats (pos 9) (pos 1)) ∷ [];
}

fire_rule_core_lem_example :
    Fires definition condition output
      (pos 1)
      context
      (some (record { evidence_types = pos 1 ∷ pos 2 ∷ [] }))
      ruled_state
fire_rule_core_lem_example =
    fire_rule_core_lem definition condition output (pos 1) context
      (some (record { evidence_types = pos 1 ∷ pos 2 ∷ [] })) ruled_state

-- the engine with the rule registered
abbrev registered : Engine ℕ
registered = (perform (Op.register_rule definition) open_state).1

registered-IsValid : IsValid registered
registered-IsValid = perform-IsValid (Op.register_rule definition) open_state open_state-IsValid

fire_rule_core-IsValid_example :
    IsValid
      (fire_rule_core definition condition output
        (pos 1)
        context
        (some (record { evidence_types = pos 1 ∷ pos 2 ∷ [] }))
        registered).1
fire_rule_core-IsValid_example =
    fire_rule_core-IsValid definition condition output (pos 1) context
      (some (record { evidence_types = pos 1 ∷ pos 2 ∷ [] })) registered registered-IsValid
