-- ===== src/Loading/Firing.antt =====
-- A rule from a file, registered (ragcore/rule_compile.py) and then fired (ragcore/rule_runtime.py).
use intelligent_rag_framewor.Prelude.{
  ℤ, ◌≡◌, true, inl, inr, Option, ok, arith, int_eq, pair_eq, string_eq, Option-cases, Result-cases,
}
use intelligent_rag_framewor.Prelude.Dict.{contains, lookup-insert_self}
use intelligent_rag_framewor.Floats.{Floats}
use intelligent_rag_framewor.Value.{Fields}
use intelligent_rag_framewor.Value.Comparison.{Numbers, lookup_field}
use intelligent_rag_framewor.Types.{RuleDefinition}
use intelligent_rag_framewor.Condition.{ConditionTree, evaluate_condition}
use intelligent_rag_framewor.Condition.Agreement.{IsLoaded, evaluate_condition_total}
use intelligent_rag_framewor.Engine.State.{Engine}
use intelligent_rag_framewor.Engine.Rules.{register_rule, new_stats}
use intelligent_rag_framewor.Runtime.{
  RuleOutputTemplate, RequiredEvidenceTemplate, FiringTrace, fire_rule_core,
}
use intelligent_rag_framewor.Runtime.Returns.{fire_rule_core_returns}
use intelligent_rag_framewor.Loading.Header.{RuleSpec, compile_rule_condition}
use intelligent_rag_framewor.Loading.Compile.{
  compile_rule_definition, register_rule_spec, compile_rule_output,
}
use intelligent_rag_framewor.Loading.Loaded.{load-IsLoaded}
use intelligent_rag_framewor.Loading.Compiled.{compile_rule_output-IsOutput}

module _ {F : Type 0} where
  registered :
      (d : RuleDefinition F) (s : Engine F)
      → ((register_rule d s).0 ≡ ok tt)
      → (contains (d.id, d.version) (register_rule d s).1.rule_stats ≡ true)
        × ((register_rule d s).1.entities ≡ s.entities)
  unfolding register_rule
  registered d s h =
      ground (
        arith,
        lookup-insert_self (d.id, d.version) (new_stats {F = F} d.id d.version) s.rule_stats,
      )

  spec_registered :
      (spec : RuleSpec F) (d : RuleDefinition F) (s : Engine F)
      → (register_rule_spec spec s).0 ≡ ok d
      → (contains (d.id, d.version) (register_rule_spec spec s).1.rule_stats ≡ true)
        × ((register_rule_spec spec s).1.entities ≡ s.entities)
  unfolding register_rule_spec
  spec_registered spec d s h = elim (Result-cases (compile_rule_definition spec)) [
    | inr (e, failed) ↦ absurd (ground arith)
    | inl (definition, read) ↦ elim (Result-cases (register_rule definition s).0) [
      | inr (e, failed) ↦ absurd (ground arith)
      | inl (u, done) ↦
          let same : d ≡ definition = ground arith in
          let (a, b) = registered definition s done in ground arith
    ]
  ]

  condition-IsLoaded :
      (spec : RuleSpec F) (condition : ConditionTree F)
      → compile_rule_condition spec ≡ ok condition
      → IsLoaded condition
  unfolding compile_rule_condition
  condition-IsLoaded spec condition h = elim (Option-cases (lookup_field "condition" spec.raw)) [
    | inl missing ↦ absurd (ground arith)
    | inr (v, found) ↦ load-IsLoaded v condition (ground arith)
  ]

module _ {F : Type 0} ⦃fl : Floats F⦄ ⦃nums : Numbers F⦄ where
  -- A spec that `register_rule_spec` registers, and whose condition and output compile, fires without
  -- raising on every entity of the engine, in every context and with every list of required evidence:
  -- it returns a trace that has fired exactly if the condition evaluates to true.
  pub register-fire :
      (spec : RuleSpec F) (s : Engine F) (d : RuleDefinition F) (condition : ConditionTree F)
      (o : RuleOutputTemplate F) (u : ℤ) (context : Fields F)
      (required : Option RequiredEvidenceTemplate)
      → (register_rule_spec spec s).0 ≡ ok d
      → compile_rule_condition spec ≡ ok condition
      → compile_rule_output spec ≡ ok o
      → contains u s.entities ≡ true
      → (f : FiringTrace F) × ((fire_rule_core d condition o u context required
            (register_rule_spec spec s).1).0
          ≡ ok f)
        × (evaluate_condition condition context ≡ ok f.fired)
  register-fire spec s d condition o u context required known compiled output entity =
      let (stored, kept) = spec_registered spec d s known in
      let (t, traced, agrees) =
        evaluate_condition_total condition context (condition-IsLoaded spec condition compiled) in
      let (_, status, _, unit) = compile_rule_output-IsOutput spec o output in
      let (f, returned, same, fires) =
        fire_rule_core_returns d condition o u context required (register_rule_spec spec s).1 t
          stored traced (rw kept entity) status unit in
      (f, returned, rw fires agrees)
