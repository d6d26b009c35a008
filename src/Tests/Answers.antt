-- ===== src/Tests/Answers.antt =====
-- What single calls answer on the states of `Tests/Scenario.antt` and `Tests/Branches.antt`.
use intelligent_rag_framewor.Prelude.{
  ℤ, List, ◌==◌, ◌&&◌, not, is_empty, all, any, IsSorted, if◌then◌else◌, Bool, ℕ, pos, elem, eqb_ℤ,
  ◌≡◌, refl, some, ok, [], int_eq, string_eq, pair_eq, quad_eq, true, ◌↔◌, arith, eqb_ℤ_iff,
  difference, filter_by,
}
use intelligent_rag_framewor.Prelude.Dict.{contains, lookup, get_or}
use intelligent_rag_framewor.Floats.Fixed.{fixed}
use intelligent_rag_framewor.Types.{Evidence}
use intelligent_rag_framewor.Types.ClaimStatus
use intelligent_rag_framewor.Engine.Gaps.{resolve_gaps_for_evidence}
use intelligent_rag_framewor.Session.Readiness.{
  IsFreshest, confirm_claim_if_ready_lem, refute_disputed_claim_if_ready_lem, by_freshness_lem,
}
use intelligent_rag_framewor.Session.Readiness.Scans.{is_resolved, is_strong}
use intelligent_rag_framewor.Session.Resolving.{resolve_gaps_for_evidence_lem, wants}
use intelligent_rag_framewor.Engine.Lifecycle.{
  confirm_claim_if_ready, refute_disputed_claim_if_ready,
  refute_disputed_claim_if_ready_by_freshness,
}
use intelligent_rag_framewor.Spec.{active, Edge, with_status}
use intelligent_rag_framewor.Session.Edges.{method_of, Edge-method_of}
use intelligent_rag_framewor.Session.Refinement.Transitions.{revised}
use intelligent_rag_framewor.Tests.Branches.{open_claim, open_state, open_state-IsValid}
use intelligent_rag_framewor.Tests.Scenario.{state, state-IsValid}
use intelligent_rag_framewor.Tests.Witnesses.{claim_one, state-claim}

open_state-claim : lookup (pos 1) open_state.claims ≡ some open_claim
unfolding lookup eqb_ℤ
open_state-claim = refl

confirm_claim_if_ready_lem_example :
    (confirm_claim_if_ready (pos 1) open_state).0
    ≡ ok (
        open_claim.status == ClaimStatus.candidate
        && (not (is_empty (get_or open_state.claim_gap_refs (pos 1) []))
            && all (is_resolved open_state) (get_or open_state.claim_gap_refs (pos 1) [])))
confirm_claim_if_ready_lem_example =
    confirm_claim_if_ready_lem open_state open_state-IsValid (pos 1) open_claim open_state-claim

refute_disputed_claim_if_ready_lem_example :
    (refute_disputed_claim_if_ready (pos 1) state).0
    ≡ ok (claim_one.status == ClaimStatus.disputed && any (is_strong state) (active state (pos 1)))
refute_disputed_claim_if_ready_lem_example =
    refute_disputed_claim_if_ready_lem state state-IsValid (pos 1) claim_one state-claim

by_freshness_lem_example :
    (b : Bool) × ((refute_disputed_claim_if_ready_by_freshness (pos 1) state).0 ≡ ok b)
    × ((b ≡ true) ↔ (
        (claim_one.status ≡ ClaimStatus.disputed)
        × ((e : ℤ) × IsFreshest state (pos 1) e × (is_strong state e ≡ true))))
    × (b ≡ true → (refute_disputed_claim_if_ready (pos 1) state).0 ≡ ok true)
by_freshness_lem_example = by_freshness_lem state state-IsValid (pos 1) claim_one state-claim

abbrev evidence_one : Evidence ℕ
evidence_one = record {
  id = pos 1;
  claim_id = pos 1;
  raw_ref_id = pos 100;
  type = pos 5;
  strength = record { value = 9000 };
}

state-Edge :
    Edge state (pos 1) claim_one.status ClaimStatus.refuted "refute_disputed_by_freshness_if_ready"
unfolding get_or difference filter_by elem lookup eqb_ℤ
state-Edge =
    Edge.refute_by_freshness (pos 1) refl refl refl (refl, evidence_one, refl, refl)
      (λ k member. ground (arith, eqb_ℤ_iff (pos 1) k))

Edge-method_of_example : method_of "refute_disputed_by_freshness_if_ready" (pos 1) state ≡ (
  ok true,
  revised state (
      with_status state
        (pos 1)
        claim_one
        ClaimStatus.refuted
        "refute_disputed_by_freshness_if_ready"),
)
Edge-method_of_example =
    Edge-method_of state (pos 1) claim_one state-claim ClaimStatus.refuted
      "refute_disputed_by_freshness_if_ready" state-IsValid state-Edge

open_state-evidence : lookup (pos 1) open_state.evidences ≡ some evidence_one
unfolding lookup eqb_ℤ
open_state-evidence = refl

resolve_gaps_for_evidence_lem_example :
    (ids : List ℤ) × ((resolve_gaps_for_evidence (pos 1) open_state).0 ≡ ok ids)
    × IsSorted (λ (n : ℤ). n) ids
    × ((g : ℤ)
        → (elem g ids ≡ (
            not (contains g open_state.gap_resolutions)
            && (elem g (get_or open_state.claim_gap_refs (pos 1) [])
                && wants (pos 5) (lookup g open_state.gaps))))
          × (lookup g (resolve_gaps_for_evidence (pos 1) open_state).1.gap_resolutions
              ≡ (if elem g ids then some (pos 1) else lookup g open_state.gap_resolutions)))
resolve_gaps_for_evidence_lem_example =
    resolve_gaps_for_evidence_lem open_state open_state-IsValid (pos 1) evidence_one
      open_state-evidence
