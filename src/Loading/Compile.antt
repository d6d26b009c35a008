-- ===== src/Loading/Compile.antt =====
-- ragcore/rule_compile.py, ragcore/rule_output.py and ragcore/rule_gap.py: from a rule's spec to the
-- definition and the templates that a firing uses.
use intelligent_rag_framewor.Prelude.{
  ℤ, String, not, Option, none, some, List, [], ◌∷◌, Result, ok, raise, value_error, type_error,
  and_then, ◌>>=◌, ◌>>◌, raise_if, all, string_eq, is_some,
}
use intelligent_rag_framewor.Prelude.Dict.{Dict, lookup}
use intelligent_rag_framewor.Floats.{Floats}
use intelligent_rag_framewor.Types.{RuleDefinition}
use intelligent_rag_framewor.Value.{Value, Values, Fields}
use intelligent_rag_framewor.Value.Comparison.{lookup_field}
use intelligent_rag_framewor.Engine.State.{Engine}
use intelligent_rag_framewor.Engine.Rules.{register_rule}
use intelligent_rag_framewor.Runtime.{RuleOutputTemplate, RequiredEvidenceTemplate}
use intelligent_rag_framewor.Loading.Tree.{value_at}
use intelligent_rag_framewor.Loading.Header.{RuleSpec, score_of_number}
use intelligent_rag_framewor.Loading.Maps.{
  rule_id_map, rule_maturity_map, claim_type_map, claim_status_map, reason_code_map,
  required_evidence_map,
}

-- the number of a name; a name that is not in the table is a ValueError
abbrev pub number_of : Dict String ℤ → String → Result ℤ
number_of table name = elim (lookup name table) [ none ↦ raise value_error | some n ↦ ok n ]

module _ {F : Type 0} where
  unfoldable pub compile_rule_definition : RuleSpec F → Result (RuleDefinition F)
  compile_rule_definition spec = do
    id ← number_of rule_id_map spec.id
    maturity ← number_of rule_maturity_map spec.maturity
    ok (record {
      id = id;
      version = spec.version;
      maturity = maturity;
      prior_confidence = spec.prior_confidence;
    })

  unfoldable pub register_rule_spec : RuleSpec F → Engine F → Result (RuleDefinition F) × Engine F
  register_rule_spec spec s = elim (compile_rule_definition spec) [
    | raise e ↦ (raise e, s)
    | ok definition ↦
        let (r, t) = register_rule definition s in (and_then r (λ _. ok definition), t)
  ]

  abbrev pub name_number : Dict String ℤ → Value F → Result ℤ
  name_number table (Value.str name) = number_of table name
  name_number table _ = raise type_error

  -- `_lookup_str`
  abbrev pub lookup_str : Fields F → String → Dict String ℤ → Result ℤ
  lookup_str block field table = and_then (value_at field block) (name_number table)

  -- a block under a name, which must be there and be a mapping
  abbrev pub block_at : String → Fields F → Result (Fields F)
  block_at name fs = elim (lookup_field name fs) [
    | none ↦ raise value_error
    | some v ↦ elim v [ Value.mapping block ↦ ok block | _ ↦ raise type_error ]
  ]

  -- a block under a name, if it is there and is a mapping
  abbrev pub optional_block : String → Fields F → Option (Fields F)
  optional_block name fs = elim (lookup_field name fs) [
    | some (Value.mapping block) ↦ some block
    | _ ↦ none
  ]

  unfoldable pub evidence_types_from : Values F → Result (List ℤ)
  evidence_types_from Values.nil = ok []
  evidence_types_from (Values.cons v vs) = do
    n ← name_number required_evidence_map v
    ns ← evidence_types_from vs
    ok (n ∷ ns)

  abbrev pub required_of : Option (Value F) → Result (List ℤ)
  required_of none = ok []
  required_of (some Value.null) = ok []
  required_of (some (Value.list vs)) = evidence_types_from vs
  required_of (some _) = raise type_error

  abbrev pub claim_block : Fields F → Option (Fields F)
  claim_block raw = elim (optional_block "output" raw) [
    | none ↦ none
    | some output ↦ optional_block "claim" output
  ]

  unfoldable pub compile_required_evidence : RuleSpec F → Result RequiredEvidenceTemplate
  compile_required_evidence spec = elim (claim_block spec.raw) [
    | none ↦ ok (record { evidence_types = [] })
    | some claim ↦
        and_then (required_of (lookup_field "required_evidence" claim))
          (λ types. ok (record { evidence_types = types }))
  ]

module _ {F : Type 0} ⦃fl : Floats F⦄ where
  unfoldable pub compile_rule_output : RuleSpec F → Result (RuleOutputTemplate F)
  compile_rule_output spec = do
    output ← block_at "output" spec.raw
    claim ← block_at "claim" output
    raise_if
        (not (
          all (λ k. is_some (lookup_field k claim))
            ("type" ∷ "status" ∷ "base_confidence" ∷ "reason_code" ∷ [])))
        value_error
    claim_type ← lookup_str claim "type" claim_type_map
    status ← lookup_str claim "status" claim_status_map
    reason_code ← lookup_str claim "reason_code" reason_code_map
    bc ← value_at "base_confidence" claim
    base_confidence ← score_of_number bc
    ok (record {
      claim_type = claim_type;
      status = status;
      base_confidence = base_confidence;
      reason_code = reason_code;
    })
