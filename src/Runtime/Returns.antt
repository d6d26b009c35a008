-- ===== src/Runtime/Returns.antt =====
-- Where a firing of ragcore/rule_runtime.py returns.
use intelligent_rag_framewor.Prelude.{
  ℤ, pos, ◌≡◌, refl, sym, true, false, inl, inr, Option, none, some, List, [], ok, arith, eqb_ℤ_iff,
  int_eq, pair_eq, string_eq, Bool-cases, Option-cases, Result-cases,
}
use intelligent_rag_framewor.Prelude.Dict.{lookup, contains}
use intelligent_rag_framewor.Floats.{Floats, in_unit}
use intelligent_rag_framewor.Value.{Fields}
use intelligent_rag_framewor.Value.Comparison.{Numbers}
use intelligent_rag_framewor.Types.{RuleDefinition, RuleStats, score_value}
use intelligent_rag_framewor.Types.ClaimStatus
use intelligent_rag_framewor.Condition.{
  ConditionTree, Trace, result_of, evaluate_condition_with_trace,
}
use intelligent_rag_framewor.Engine.State.{Engine}
use intelligent_rag_framewor.Engine.Crud.{add_claim, validate_claim_status_admission}
use intelligent_rag_framewor.Engine.Rules.{get_rule_stats, update_rule_stats}
use intelligent_rag_framewor.Spec.{IsStatus}
use intelligent_rag_framewor.Runtime.{
  RuleOutputTemplate, RequiredEvidenceTemplate, FiringTrace, add_gaps, evidence_types_of,
  fire_rule_core,
}
use intelligent_rag_framewor.Runtime.Calls.{
  add_claim_cases, add_gaps_returns, update_rule_stats_returns,
}

pub status_admitted : (n : ℤ) → IsStatus n → validate_claim_status_admission n ≡ ok tt
unfolding validate_claim_status_admission
status_admitted n h = ground (
  arith,
  eqb_ℤ_iff n ClaimStatus.candidate,
  eqb_ℤ_iff n ClaimStatus.confirmed,
  eqb_ℤ_iff n ClaimStatus.refuted,
  eqb_ℤ_iff n ClaimStatus.disputed,
)

module _ {F : Type 0} ⦃fl : Floats F⦄ where
  -- `add_claim` on a known entity, with an admissible status and a score in range, does not raise.
  add_claim_returns :
      (s : Engine F) (u t r v n : ℤ) (b : F) (st f : ℤ)
      → contains u s.entities ≡ true
      → IsStatus st
      → in_unit b ≡ true
      → (c : ℤ) × ((add_claim u t r v n b st f s).0 ≡ ok c)
  unfolding add_claim score_value
  add_claim_returns s u t r v n b st f known status unit =
      elim (Result-cases (add_claim u t r v n b st f s).0) [
        | inl found ↦ found
        | inr (e, failed) ↦ absurd (ground (arith, status_admitted st status))
      ]

module _ {F : Type 0} ⦃fl : Floats F⦄ ⦃nums : Numbers F⦄ where
  abbrev unfired : RuleDefinition F → ℤ → Trace F → FiringTrace F
  unfired d u t = record {
    rule_id = d.id;
    rule_version = d.version;
    subject_id = u;
    fired = false;
    condition_trace = t;
    claim_id = none;
    gap_ids = [];
  }

  abbrev fired : RuleDefinition F → ℤ → Trace F → ℤ → List ℤ → FiringTrace F
  fired d u t c gs = record {
    rule_id = d.id;
    rule_version = d.version;
    subject_id = u;
    fired = true;
    condition_trace = t;
    claim_id = some c;
    gap_ids = gs;
  }

  stats_read :
      (s : Engine F) (r v : ℤ)
      → contains (r, v) s.rule_stats ≡ true
      → (x : RuleStats F) × (get_rule_stats r v s ≡ (ok x, s))
  unfolding get_rule_stats
  stats_read s r v known = elim (Option-cases (lookup (r, v) s.rule_stats)) [
    | inl absent ↦ absurd (ground arith)
    | inr (x, found) ↦ (x, ground arith)
  ]

  pub fire_rule_core_returns :
      (d : RuleDefinition F) (condition : ConditionTree F) (o : RuleOutputTemplate F) (u : ℤ)
      (context : Fields F) (required : Option RequiredEvidenceTemplate) (s : Engine F) (t : Trace F)
      → contains (d.id, d.version) s.rule_stats ≡ true
      → evaluate_condition_with_trace condition context ≡ ok t
      → contains u s.entities ≡ true
      → IsStatus o.status
      → in_unit o.base_confidence.value ≡ true
      → (f : FiringTrace F) × ((fire_rule_core d condition o u context required s).0 ≡ ok f)
        × (f.condition_trace ≡ t)
        × (f.fired ≡ result_of t)
  unfolding fire_rule_core
  fire_rule_core_returns d condition o u context required s t registered traced known status unit =
      let (x, read) = stats_read s d.id d.version registered in
      elim (Bool-cases (result_of t)) [
        | inr fails ↦ (unfired d u t, ground arith, refl, sym fails)
        | inl holds ↦
            elim (add_claim_cases s u o.claim_type d.id d.version o.reason_code
              o.base_confidence.value o.status (pos 0)) [
                | inl (e, failed) ↦
                    let (c, done) =
                      add_claim_returns s u o.claim_type d.id d.version o.reason_code
                        o.base_confidence.value o.status (pos 0) known status unit in
                    absurd (ground arith)
                | inr (c, done, claim, stats) ↦
                    let after : Engine F =
                      (add_claim u o.claim_type d.id d.version o.reason_code o.base_confidence.value
                        o.status (pos 0) s).1 in
                    let (gs, added, kept) =
                      add_gaps_returns c d.id (evidence_types_of required) after claim in
                    let counted : (update_rule_stats d.id d.version (pos 1) (pos 0) (pos 0) none
                          none (add_gaps c d.id (evidence_types_of required) after).1).0
                        ≡ ok tt =
                      update_rule_stats_returns
                        (add_gaps c d.id (evidence_types_of required) after).1 d.id d.version
                        (pos 1) (rw (kept, stats) registered) in
                    (fired d u t c gs, ground arith, refl, sym holds)
              ]
      ]
