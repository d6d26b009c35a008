-- ===== src/Tests/Witnesses.antt =====
-- Each theorem with hypotheses, applied to the session of `Tests/Scenario.antt`.
use intelligent_rag_framewor.Prelude.{
  ℕ, pos, elem, eqb_ℤ, ◌≡◌, ◌≢◌, refl, some, ok, [], ◌∷◌, int_eq, string_eq, pair_eq, quad_eq, true,
  arith, length, ◌^◌, ◌≤◌, difference, filter_by, sort, sort_by, insert_by, leb, adjoin,
}
use intelligent_rag_framewor.Prelude.Dict.{lookup, get_or, insert, setdefault}
use intelligent_rag_framewor.Floats.{in_unit, feq}
use intelligent_rag_framewor.Floats.Fixed.{fixed}
use intelligent_rag_framewor.Types.{score_value, Claim, ScoreValue, EffectiveConfidenceTrace}
use intelligent_rag_framewor.Types.ClaimStatus
use intelligent_rag_framewor.Engine.State.{
  init, assert_claim_exists, assert_evidence_exists, advance_state_revision,
}
use intelligent_rag_framewor.Engine.Gaps.{add_gap, reuse_gap}
use intelligent_rag_framewor.Engine.Confidence.{status_modifier}
use intelligent_rag_framewor.Engine.ConfidenceAdapters.{
  compute_effective_confidence_core, compute_effective_confidence,
}
use intelligent_rag_framewor.Session.{Op, run, perform}
use intelligent_rag_framewor.Session.Revision.{Advances, perform-Advances}
use intelligent_rag_framewor.Session.Refinement.{
  perform-Steps, perform-IsValid, run-Steps, run-IsValid,
}
use intelligent_rag_framewor.Session.Memory.{run-Keeps, run-refuted, run-candidate}
use intelligent_rag_framewor.Session.Audit.{run-HasTrail}
use intelligent_rag_framewor.Session.Dedup.{add_gap-deduplicates}
use intelligent_rag_framewor.Scoring.Effective.{compute_core-total, compute-refuted}
use intelligent_rag_framewor.Scoring.Readings.{PrecisionsAreUnit}
use intelligent_rag_framewor.Engine.Lifecycle.{
  resolve_disputed_claim_if_ready, active_contradictions_for_claim, known_claim, active_set,
  transit, register_contradiction_resolution,
}
use intelligent_rag_framewor.Engine.LifecycleHistory.{record_claim_lifecycle_transition}
use intelligent_rag_framewor.Spec.{Steps, active}
use intelligent_rag_framewor.Spec.Permanence.{Keeps}
use intelligent_rag_framewor.Spec.Trail.{HasTrail}
use intelligent_rag_framewor.Spec.Valid.{IsValid}
use intelligent_rag_framewor.Tests.Scenario.{
  refuted_claim, refuted_state, refuted_state-IsValid, state, calls, state-IsValid,
}

abbrev settle : Op ℕ
settle = Op.register_contradiction_resolution (pos 1) (pos 1)

abbrev resolve : Op ℕ
resolve = Op.resolve_disputed_claim_if_ready (pos 1)

abbrev refuting : Op ℕ
refuting = Op.refute_disputed_claim_if_ready_by_freshness (pos 1)

perform-Steps_example : Steps state (perform refuting state).1
perform-Steps_example = perform-Steps refuting state state-IsValid

perform-IsValid_example : IsValid (perform settle state).1
perform-IsValid_example = perform-IsValid settle state state-IsValid

perform-Advances_example : Advances state (perform refuting state)
perform-Advances_example = perform-Advances refuting state

run-Steps_example : Steps state (run (settle ∷ resolve ∷ []) state)
run-Steps_example = run-Steps (settle ∷ resolve ∷ []) state state-IsValid

run-IsValid_example : IsValid {F = ℕ} (run calls (init "token"))
run-IsValid_example = run-IsValid calls "token"

run-Keeps_example : Keeps state (run (settle ∷ resolve ∷ []) state)
run-Keeps_example = run-Keeps (settle ∷ resolve ∷ []) state state-IsValid

abbrev pub claim_one : Claim ℕ
claim_one = record {
  id = pos 1;
  subject_id = pos 1;
  type = pos 2;
  status = pos 3;
  created_by_rule = pos 7;
  created_by_rule_version = pos 1;
  reason_code = pos 0;
  base_confidence = record { value = 8000 };
  flags = pos 0;
}

pub state-claim : lookup (pos 1) state.claims ≡ some claim_one
unfolding lookup eqb_ℤ
state-claim = refl

run-HasTrail_example : HasTrail {F = ℕ} (run calls (init "token"))
run-HasTrail_example = run-HasTrail calls "token"

not_candidate : claim_one.status ≢ ClaimStatus.candidate
not_candidate = ground arith

confirmed_claim : Claim ℕ
confirmed_claim = record claim_one { status = pos 1 }

after-claim : lookup (pos 1) (run (settle ∷ resolve ∷ []) state).claims ≡ some confirmed_claim
unfolding confirmed_claim run perform lookup eqb_ℤ setdefault get_or insert elem adjoin
    assert_claim_exists register_contradiction_resolution assert_evidence_exists
    advance_state_revision resolve_disputed_claim_if_ready known_claim
    active_contradictions_for_claim active_set difference filter_by sort sort_by insert_by transit
    record_claim_lifecycle_transition
after-claim = refl

run-candidate_example : confirmed_claim.status ≢ ClaimStatus.candidate
run-candidate_example =
    run-candidate (settle ∷ resolve ∷ []) state state-IsValid (pos 1) claim_one confirmed_claim
      state-claim not_candidate after-claim

no_precision : PrecisionsAreUnit state
unfolding lookup
no_precision k x found = absurd (ground arith)

few : length (active state (pos 1)) ≤ 2 ^ 53
unfolding difference filter_by get_or lookup elem eqb_ℤ
few = omega arith

named : state.state_identity_token ≢ ""
named = ground (arith, string_eq.test_iff "token" "")

compute_core-total_example :
    (t : EffectiveConfidenceTrace ℕ) × (compute_effective_confidence_core (pos 1) state
      ≡ (ok t, state))
    × (t.claim_id ≡ pos 1)
    × (t.base_confidence ≡ claim_one.base_confidence)
    × (status_modifier claim_one.status ≡ ok t.status_modifier)
    × (t.effective_confidence.value
        ≡ fixed.mul
            (fixed.mul
              (fixed.mul
                (fixed.mul
                  (fixed.mul
                    (fixed.mul claim_one.base_confidence.value t.status_modifier)
                    t.freshness_modifier)
                  t.gap_modifier)
                t.count_modifier)
              t.rule_stats_modifier)
            t.evidence_type_modifier)
    × (in_unit t.effective_confidence.value ≡ true)
    × (leb t.effective_confidence.value claim_one.base_confidence.value ≡ true)
    × (leb t.effective_confidence.value t.status_modifier ≡ true)
    × (leb t.effective_confidence.value t.freshness_modifier ≡ true)
    × (leb t.effective_confidence.value t.gap_modifier ≡ true)
    × (leb t.effective_confidence.value t.count_modifier ≡ true)
    × (leb t.effective_confidence.value t.rule_stats_modifier ≡ true)
    × (leb t.effective_confidence.value t.evidence_type_modifier ≡ true)
compute_core-total_example =
    compute_core-total state state-IsValid (pos 1) claim_one state-claim no_precision few named
      (omega arith)

again : (add_gap (pos 1) (pos 3) (pos 5) 5000 (pos 7) state).0 ≡ ok (pos 1)
unfolding add_gap assert_claim_exists score_value lookup eqb_ℤ reuse_gap setdefault get_or insert
    elem
again = refl

still :
    lookup (pos 1) (run (settle ∷ []) (add_gap (pos 1) (pos 3) (pos 5) 5000 (pos 7) state).1).claims
    ≡ some claim_one
unfolding run perform add_gap assert_claim_exists score_value lookup eqb_ℤ reuse_gap setdefault
    get_or insert elem adjoin register_contradiction_resolution assert_evidence_exists
    advance_state_revision
still = refl

add_gap-deduplicates_example :
    (add_gap
      (pos 1)
      (pos 3)
      (pos 5)
      100
      (pos 7)
      (run (settle ∷ []) (add_gap (pos 1) (pos 3) (pos 5) 5000 (pos 7) state).1)).0
    ≡ ok (pos 1)
add_gap-deduplicates_example =
    add_gap-deduplicates state state-IsValid (pos 1) (pos 3) (pos 5) 5000 (pos 7) claim_one (pos 1)
      state-claim again (settle ∷ []) (pos 1) claim_one 100 still refl refl

refuted_state-claim : lookup (pos 1) refuted_state.claims ≡ some refuted_claim
unfolding lookup eqb_ℤ
refuted_state-claim = refl

run-refuted_example :
    lookup (pos 1) (run (settle ∷ resolve ∷ []) refuted_state).claims ≡ some refuted_claim
run-refuted_example =
    run-refuted (settle ∷ resolve ∷ []) refuted_state refuted_state-IsValid (pos 1) refuted_claim
      refuted_state-claim refl

no_precision_refuted : PrecisionsAreUnit refuted_state
unfolding lookup
no_precision_refuted k x found = absurd (ground arith)

few_refuted : length (active refuted_state (pos 1)) ≤ 2 ^ 53
unfolding difference filter_by get_or lookup elem eqb_ℤ
few_refuted = omega arith

compute-refuted_example :
    (x : ScoreValue ℕ) × (compute_effective_confidence (pos 1) refuted_state
      ≡ (ok x, refuted_state))
    × (feq x.value 0 ≡ true)
compute-refuted_example =
    compute-refuted refuted_state refuted_state-IsValid (pos 1) refuted_claim refuted_state-claim
      no_precision_refuted few_refuted named (omega arith) refl
