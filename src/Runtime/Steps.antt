-- ===== src/Runtime/Steps.antt =====
-- A firing of ragcore/rule_runtime.py as steps of the abstract machine.
use intelligent_rag_framewor.Prelude.{
  ℤ, pos, ◌≡◌, inl, inr, ◌⊎◌, Option, none, List, [], ◌∷◌, arith, Bool-cases, Result-cases,
}
use intelligent_rag_framewor.Floats.{Floats}
use intelligent_rag_framewor.Value.{Fields}
use intelligent_rag_framewor.Value.Comparison.{Numbers}
use intelligent_rag_framewor.Types.{RuleDefinition}
use intelligent_rag_framewor.Condition.{ConditionTree, result_of, evaluate_condition_with_trace}
use intelligent_rag_framewor.Engine.State.{Engine}
use intelligent_rag_framewor.Engine.Crud.{add_claim}
use intelligent_rag_framewor.Engine.Gaps.{add_gap}
use intelligent_rag_framewor.Engine.Rules.{update_rule_stats}
use intelligent_rag_framewor.Runtime.{
  RuleOutputTemplate, RequiredEvidenceTemplate, add_gaps, default_gap_severity,
  gap_type_missing_evidence, evidence_types_of, fire_rule_core,
}
use intelligent_rag_framewor.Runtime.Calls.{get_rule_stats_cases, add_claim_cases, add_gaps_returns}
use intelligent_rag_framewor.Session.Refinement.{
  add_claim-Steps, add_gap-Steps, update_rule_stats-Steps,
}
use intelligent_rag_framewor.Spec.{Steps, Steps-trans}
use intelligent_rag_framewor.Spec.Valid.{IsValid}
use intelligent_rag_framewor.Spec.Valid.Preserved.{Steps-IsValid}

module _ {F : Type 0} ⦃fl : Floats F⦄ where
  add_gaps_cons :
      (c r e : ℤ) (types : List ℤ) (s : Engine F)
      → let t = (add_gap c gap_type_missing_evidence e default_gap_severity r s).1 in
        ((add_gaps c r (e ∷ types) s).1 ≡ t)
        ⊎ ((add_gaps c r (e ∷ types) s).1 ≡ (add_gaps c r types t).1)
  unfolding add_gaps
  add_gaps_cons c r e types s = ground arith

  add_gaps-Steps : (c r : ℤ) (types : List ℤ) (s : Engine F) → Steps s (add_gaps c r types s).1
  unfolding add_gaps
  add_gaps-Steps c r [] s = Steps.here
  add_gaps-Steps c r (e ∷ types) s =
      let one : Steps s (add_gap c gap_type_missing_evidence e default_gap_severity r s).1 =
        add_gap-Steps s c gap_type_missing_evidence e default_gap_severity r in
      elim (add_gaps_cons c r e types s) [
        | inl stop ↦ rw stop one
        | inr on ↦ rw on (
            Steps-trans one (
              add_gaps-Steps c r types
                (add_gap c gap_type_missing_evidence e default_gap_severity r s).1))
      ]

module _ {F : Type 0} ⦃fl : Floats F⦄ ⦃nums : Numbers F⦄ (d : RuleDefinition F)
    (condition : ConditionTree F) (o : RuleOutputTemplate F) (u : ℤ) (context : Fields F)
    (required : Option RequiredEvidenceTemplate) (s : Engine F) where
  abbrev claimed : Engine F
  claimed =
      (add_claim u o.claim_type d.id d.version o.reason_code o.base_confidence.value o.status
        (pos 0) s).1

  abbrev gapped : ℤ → Engine F
  gapped c = (add_gaps c d.id (evidence_types_of required) claimed).1

  fire_outcome :
      ((fire_rule_core d condition o u context required s).1 ≡ s)
      ⊎ ((c : ℤ) × ((fire_rule_core d condition o u context required s).1
            ≡ (update_rule_stats d.id d.version (pos 1) (pos 0) (pos 0) none none (gapped c)).1))
  unfolding fire_rule_core
  fire_outcome = elim (get_rule_stats_cases s d.id d.version) [
    | inl absent ↦ inl (ground arith)
    | inr (known, (x, read)) ↦
        elim (Result-cases (evaluate_condition_with_trace condition context)) [
          | inr (e, failed) ↦ inl (ground arith)
          | inl (t, traced) ↦ elim (Bool-cases (result_of t)) [
            | inr fails ↦ inl (ground arith)
            | inl holds ↦
                elim (add_claim_cases s u o.claim_type d.id d.version o.reason_code
                  o.base_confidence.value o.status (pos 0)) [
                    | inl (e, failed) ↦ inl (ground arith)
                    | inr (c, done, claim, stats) ↦
                        let (gs, added, kept) =
                          add_gaps_returns c d.id (evidence_types_of required) claimed claim in
                        inr (c, ground arith)
                  ]
          ]
        ]
  ]

  -- A firing leaves a valid engine valid, whether it returns or raises.
  pub fire_rule_core-IsValid :
      IsValid s → IsValid (fire_rule_core d condition o u context required s).1
  fire_rule_core-IsValid v = elim fire_outcome [
    | inl same ↦ rw same v
    | inr (c, new) ↦
        let to_claim : Steps s claimed =
          add_claim-Steps s u o.claim_type d.id d.version o.reason_code o.base_confidence.value
            o.status (pos 0) in
        let to_gaps : Steps claimed (gapped c) =
          add_gaps-Steps c d.id (evidence_types_of required) claimed in
        rw new (
          Steps-IsValid
            (Steps-trans (Steps-trans to_claim to_gaps)
              (update_rule_stats-Steps (gapped c) d.id d.version (pos 1) (pos 0) (pos 0) none none))
            v)
  ]
