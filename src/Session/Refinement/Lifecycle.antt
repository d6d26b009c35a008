-- ===== src/Session/Refinement/Lifecycle.antt =====
-- The transitions of ragcore/_engine/lifecycle.py, as steps of the abstract machine.
use intelligent_rag_framewor.Prelude.{
  ℤ, String, ◌≡◌, refl, sym, ◌∙◌, ◌⊎◌, inl, inr, none, some, int_eq, Option-cases, Result-cases,
  sort, reverse, elem-sort,
}
use intelligent_rag_framewor.Prelude.Dict.{lookup}
use intelligent_rag_framewor.Floats.{Floats}
use intelligent_rag_framewor.Types.{Claim}
use intelligent_rag_framewor.Types.ClaimStatus
use intelligent_rag_framewor.Engine.State.{Engine}
use intelligent_rag_framewor.Engine.Gaps.{gaps_for_claim}
use intelligent_rag_framewor.Engine.Lifecycle.{
  confirm_claim_if_ready, refute_claim_if_ready, dispute_claim_if_ready,
  resolve_disputed_claim_if_ready, refute_disputed_claim_if_ready,
  refute_disputed_claim_if_ready_by_freshness,
}
use intelligent_rag_framewor.Session.Refinement.Reads.{all_resolved-covers, gaps_for_claim-is_empty}
use intelligent_rag_framewor.Spec.{Step, Steps, Edge, active, counted}
use intelligent_rag_framewor.Spec.Valid.{IsValid}
use intelligent_rag_framewor.Session.Refinement.Transitions.{
  Transits, refute_outcome, dispute_outcome, resolve_disputed_outcome, unknown_claim,
  refute_by_any_outcome, refute_disputed_outcome, refute_by_first_outcome,
  refute_by_freshness_outcome, refute_by_freshness-Edge, confirm_outcome, confirm_failed,
}

module _ {F : Type 0} ⦃fl : Floats F⦄ (s : Engine F) where
  Transits-Steps :
      (c : ℤ) (claim : Claim F) (to : ℤ) (label : String) (t : Engine F)
      → lookup c s.claims ≡ some claim
      → Transits s c claim to label (Edge s c claim.status to label) t
      → Steps s t
  Transits-Steps c claim to label t known (inl same) = rw same Steps.here
  Transits-Steps c claim to label t known (inr (new, edge)) =
      rw new (counted (Step.transit c claim to label known edge))

  pub confirm-Steps : IsValid s → (c : ℤ) → Steps s (confirm_claim_if_ready c s).1
  confirm-Steps v c = elim (Option-cases (lookup c s.claims)) [
    | inl unknown ↦ rw ((unknown_claim s c unknown).0) Steps.here
    | inr (claim, known) ↦ elim (Result-cases (gaps_for_claim c s).0) [
      | inr (e, failed) ↦ rw (confirm_failed s c claim e known failed) Steps.here
      | inl (gs, read) ↦ elim (confirm_outcome s c claim gs known read) [
        | inl same ↦ rw same Steps.here
        | inr (new, (candidate, some_gap, ready)) ↦ rw new (
            counted (
              Step.transit c claim ClaimStatus.confirmed "confirm_if_ready" known (
                Edge.confirm candidate refl refl (gaps_for_claim-is_empty s v c gs read ∙ some_gap)
                  (all_resolved-covers s v c gs read ready))))
      ]
    ]
  ]

  -- The transition, given by what it comes to on a known claim.
  transition-Steps :
      (c : ℤ) (to : ℤ) (label : String) (t : Engine F)
      → (lookup c s.claims ≡ none → t ≡ s)
      → ((claim : Claim F)
          → lookup c s.claims ≡ some claim
          → Transits s c claim to label (Edge s c claim.status to label) t)
      → Steps s t
  transition-Steps c to label t unknown known = elim (Option-cases (lookup c s.claims)) [
    | inl none_there ↦ rw (unknown none_there) Steps.here
    | inr (claim, there) ↦ Transits-Steps c claim to label t there (known claim there)
  ]

  guarded : {A B Guard Edges : Type 0} → (Guard → Edges) → A ⊎ (B × Guard) → A ⊎ (B × Edges)
  guarded f (inl same) = inl same
  guarded f (inr (new, guard)) = inr (new, f guard)

  pub refute-Steps : (c : ℤ) → Steps s (refute_claim_if_ready c s).1
  refute-Steps c =
      transition-Steps c ClaimStatus.refuted "refute_if_ready" (refute_claim_if_ready c s).1
        (λ u. (unknown_claim s c u).1)
        (λ claim known.
          guarded (λ (candidate, contradicted). Edge.refute candidate refl refl contradicted)
            (refute_outcome s c claim known))

  pub dispute-Steps : (c : ℤ) → Steps s (dispute_claim_if_ready c s).1
  dispute-Steps c =
      transition-Steps c ClaimStatus.disputed "dispute_if_ready" (dispute_claim_if_ready c s).1
        (λ u. (unknown_claim s c u).2)
        (λ claim known.
          guarded (λ (confirmed, contradicted). Edge.dispute confirmed refl refl contradicted)
            (dispute_outcome s c claim known))

  pub resolve_disputed-Steps : (c : ℤ) → Steps s (resolve_disputed_claim_if_ready c s).1
  resolve_disputed-Steps c =
      transition-Steps c ClaimStatus.confirmed "resolve_disputed_if_ready"
        (resolve_disputed_claim_if_ready c s).1 (λ u. (unknown_claim s c u).3)
        (λ claim known.
          guarded (λ (disputed, settled). Edge.resolve_disputed disputed refl refl settled)
            (resolve_disputed_outcome s c claim known))

  refute_disputed_known :
      (c : ℤ) (claim : Claim F)
      → lookup c s.claims ≡ some claim
      → Transits s c claim ClaimStatus.refuted "refute_disputed_if_ready"
          (Edge s c claim.status ClaimStatus.refuted "refute_disputed_if_ready")
          (refute_disputed_claim_if_ready c s).1
  refute_disputed_known c claim known = elim (refute_disputed_outcome s c claim known) [
    | inl same ↦ inl same
    | inr (disputed, by_any) ↦ rw by_any (
        guarded (λ (e, strong). Edge.refute_disputed e disputed refl refl strong)
          (refute_by_any_outcome s c claim (sort (active s c))
            (λ k m. rw (sym (elem-sort k (active s c))) m)))
  ]

  pub refute_disputed-Steps : (c : ℤ) → Steps s (refute_disputed_claim_if_ready c s).1
  refute_disputed-Steps c =
      transition-Steps c ClaimStatus.refuted "refute_disputed_if_ready"
        (refute_disputed_claim_if_ready c s).1 (λ u. (unknown_claim s c u).4)
        (refute_disputed_known c)

  refute_by_freshness_known :
      (c : ℤ) (claim : Claim F)
      → lookup c s.claims ≡ some claim
      → Transits s c claim ClaimStatus.refuted "refute_disputed_by_freshness_if_ready"
          (Edge s c claim.status ClaimStatus.refuted "refute_disputed_by_freshness_if_ready")
          (refute_disputed_claim_if_ready_by_freshness c s).1
  refute_by_freshness_known c claim known = elim (refute_by_freshness_outcome s c claim known) [
    | inl same ↦ inl same
    | inr (disputed, by_first) ↦ rw by_first (
        refute_by_freshness-Edge s c claim disputed
          (refute_by_first_outcome s c claim (reverse (sort (active s c)))))
  ]

  pub refute_by_freshness-Steps :
      (c : ℤ) → Steps s (refute_disputed_claim_if_ready_by_freshness c s).1
  refute_by_freshness-Steps c =
      transition-Steps c ClaimStatus.refuted "refute_disputed_by_freshness_if_ready"
        (refute_disputed_claim_if_ready_by_freshness c s).1 (λ u. (unknown_claim s c u).5)
        (refute_by_freshness_known c)
