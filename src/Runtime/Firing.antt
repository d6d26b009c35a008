-- ===== src/Runtime/Firing.antt =====
-- A firing of ragcore/rule_runtime.py is all or nothing.
use intelligent_rag_framewor.Prelude.{
  ℤ, pos, ◌≡◌, refl, sym, is_some, true, false, inl, inr, ◌⊎◌, Option, none, some, [], Error,
  key_error, ok, raise, arith, int_eq, string_eq, pair_eq, quad_eq, Bool-cases, Result-cases,
}
use intelligent_rag_framewor.Prelude.Dict.{contains}
use intelligent_rag_framewor.Floats.{Floats}
use intelligent_rag_framewor.Value.{Fields}
use intelligent_rag_framewor.Value.Comparison.{Numbers}
use intelligent_rag_framewor.Types.{RuleDefinition, RuleStats}
use intelligent_rag_framewor.Condition.{
  ConditionTree, Trace, result_of, evaluate_condition_with_trace,
}
use intelligent_rag_framewor.Engine.State.{Engine}
use intelligent_rag_framewor.Engine.Crud.{add_claim}
use intelligent_rag_framewor.Engine.Rules.{get_rule_stats, update_rule_stats}
use intelligent_rag_framewor.Runtime.{
  RuleOutputTemplate, RequiredEvidenceTemplate, FiringTrace, add_gaps, evidence_types_of,
  fire_rule_core,
}
use intelligent_rag_framewor.Runtime.Calls.{
  get_rule_stats_cases, add_claim_cases, add_gaps_returns, update_rule_stats_returns,
}

module _ {F : Type 0} ⦃fl : Floats F⦄ ⦃nums : Numbers F⦄ (d : RuleDefinition F)
    (condition : ConditionTree F) (o : RuleOutputTemplate F) (u : ℤ) (context : Fields F)
    (required : Option RequiredEvidenceTemplate) (s : Engine F) where
  -- What a firing comes to: an exception and no change, or a trace that says what was done.
  abbrev pub Fires : Type 0
  Fires =
      ((e : Error) × (fire_rule_core d condition o u context required s ≡ (raise e, s)))
      ⊎ ((t : FiringTrace F) × ((fire_rule_core d condition o u context required s).0 ≡ ok t)
          × (evaluate_condition_with_trace condition context ≡ ok t.condition_trace)
          × (t.fired ≡ result_of t.condition_trace)
          × (is_some t.claim_id ≡ t.fired)
          × (t.fired ≡ false → (fire_rule_core d condition o u context required s).1 ≡ s))

  fired_lem :
      (x : RuleStats F) (t : Trace F) (c : ℤ)
      → contains (d.id, d.version) s.rule_stats ≡ true
      → get_rule_stats d.id d.version s ≡ (ok x, s)
      → evaluate_condition_with_trace condition context ≡ ok t
      → result_of t ≡ true
      → let added =
          add_claim u o.claim_type d.id d.version o.reason_code o.base_confidence.value o.status
            (pos 0)
            s in
        added.0 ≡ ok c
        → contains c added.1.claims ≡ true
        → added.1.rule_stats ≡ s.rule_stats
        → Fires
  unfolding fire_rule_core
  fired_lem x t c known read traced holds done claim stats =
      let after : Engine F =
        (add_claim u o.claim_type d.id d.version o.reason_code o.base_confidence.value o.status
          (pos 0) s).1 in
      let (gs, added, kept) = add_gaps_returns c d.id (evidence_types_of required) after claim in
      let counted : (update_rule_stats d.id d.version (pos 1) (pos 0) (pos 0) none none
            (add_gaps c d.id (evidence_types_of required) after).1).0
          ≡ ok tt =
        update_rule_stats_returns (add_gaps c d.id (evidence_types_of required) after).1 d.id
          d.version (pos 1) (rw (kept, stats) known) in
      inr (
        record {
          rule_id = d.id;
          rule_version = d.version;
          subject_id = u;
          fired = true;
          condition_trace = t;
          claim_id = some c;
          gap_ids = gs;
        },
        ground arith,
        traced,
        sym holds,
        refl,
        λ unfired. absurd (ground arith),
      )

  -- A firing either raises and leaves the engine as it was, whatever it raises, or returns a trace:
  -- then the trace holds that of the condition, the rule has fired just when the condition came out
  -- true, a claim id is there just when the rule has fired, and where it has not fired the engine is
  -- as it was.
  pub fire_rule_core_lem : Fires
  unfolding fire_rule_core
  fire_rule_core_lem = elim (get_rule_stats_cases s d.id d.version) [
    | inl absent ↦ inl (key_error, ground arith)
    | inr (known, (x, read)) ↦
        elim (Result-cases (evaluate_condition_with_trace condition context)) [
          | inr (e, failed) ↦ inl (e, ground arith)
          | inl (t, traced) ↦ elim (Bool-cases (result_of t)) [
            | inr fails ↦ inr (
              record {
                rule_id = d.id;
                rule_version = d.version;
                subject_id = u;
                fired = false;
                condition_trace = t;
                claim_id = none;
                gap_ids = [];
              },
              ground arith,
              traced,
              sym fails,
              refl,
              λ _. ground arith,
            )
            | inl holds ↦
                elim (add_claim_cases s u o.claim_type d.id d.version o.reason_code
                  o.base_confidence.value o.status (pos 0)) [
                    | inl (e, failed) ↦ inl (e, ground arith)
                    | inr (c, done, claim, stats) ↦
                        fired_lem x t c known read traced holds done claim stats
                  ]
          ]
        ]
  ]
