-- ===== src/Session/Revision/Lifecycle.antt =====
-- What the calls of ragcore/_engine/lifecycle.py do to the revision.
use intelligent_rag_framewor.Prelude.{ℤ, String, List, [], ◌∷◌, ◌≡◌, refl, elem-nil, arith, int_eq}
use intelligent_rag_framewor.Prelude.Dict.{setdefault_known, get_or-setdefault, get_or_unknown}
use intelligent_rag_framewor.Floats.{Floats}
use intelligent_rag_framewor.Types.{Claim, Gap}
use intelligent_rag_framewor.Engine.State.{Engine}
use intelligent_rag_framewor.Engine.Lifecycle
use intelligent_rag_framewor.Session.Revision.Crud.{Counted}
use intelligent_rag_framewor.Session.Revision.Gaps.{gaps_for_claim_reads, gap_resolution_reads}

module _ {F : Type 0} (s : Engine F) where
  transit-Counted :
      (c : ℤ) (k : Claim F) (t : ℤ) (l : String) → Counted s (Lifecycle.transit c k t l s)
  unfolding Lifecycle.transit
  transit-Counted c k t l = ground arith

  pub all_resolved_reads : (gs : List (Gap F)) → (Lifecycle.all_resolved gs s).1 ≡ s
  unfolding Lifecycle.all_resolved
  all_resolved_reads [] = refl
  all_resolved_reads (g ∷ gs) = ground (arith, gap_resolution_reads s g.id, all_resolved_reads gs)

  pub confirm-Counted : (c : ℤ) → Counted s (Lifecycle.confirm_claim_if_ready c s)
  unfolding Lifecycle.confirm_claim_if_ready
  confirm-Counted c = grind (arith, gaps_for_claim_reads, all_resolved_reads, transit-Counted)

  pub refute-Counted : (c : ℤ) → Counted s (Lifecycle.refute_claim_if_ready c s)
  unfolding Lifecycle.refute_claim_if_ready
  refute-Counted c = ground arith

  pub dispute-Counted : (c : ℤ) → Counted s (Lifecycle.dispute_claim_if_ready c s)
  unfolding Lifecycle.dispute_claim_if_ready
  dispute-Counted c = ground arith

  pub resolve_disputed-Counted : (c : ℤ) → Counted s (Lifecycle.resolve_disputed_claim_if_ready c s)
  unfolding Lifecycle.resolve_disputed_claim_if_ready Lifecycle.active_contradictions_for_claim
  resolve_disputed-Counted c = ground arith

  pub register_contradiction-Counted :
      (c e : ℤ) → Counted s (Lifecycle.register_contradiction c e s)
  unfolding Lifecycle.register_contradiction
  register_contradiction-Counted c e = ground (
    arith,
    setdefault_known c [] s.contradictions,
    get_or-setdefault c c [] s.contradictions,
    get_or_unknown s.contradictions c [],
    elem-nil e,
  )

  pub register_resolution-Counted :
      (c e : ℤ) → Counted s (Lifecycle.register_contradiction_resolution c e s)
  unfolding Lifecycle.register_contradiction_resolution
  register_resolution-Counted c e = ground (
    arith,
    setdefault_known c [] s.resolved_contradictions,
    get_or-setdefault c c [] s.resolved_contradictions,
    get_or_unknown s.resolved_contradictions c [],
    elem-nil e,
  )

module _ {F : Type 0} ⦃fl : Floats F⦄ (s : Engine F) where
  refute_by_any-Counted :
      (c : ℤ) (k : Claim F) (ids : List ℤ) → Counted s (Lifecycle.refute_by_any c k ids s)
  unfolding Lifecycle.refute_by_any
  refute_by_any-Counted c k [] = ground arith
  refute_by_any-Counted c k (e ∷ ids) = ground (arith, refute_by_any-Counted c k ids)

  pub refute_disputed-Counted : (c : ℤ) → Counted s (Lifecycle.refute_disputed_claim_if_ready c s)
  unfolding Lifecycle.refute_disputed_claim_if_ready Lifecycle.active_contradictions_for_claim
  refute_disputed-Counted c = grind (arith, refute_by_any-Counted)

  refute_by_first-Counted :
      (c : ℤ) (k : Claim F) (ids : List ℤ) → Counted s (Lifecycle.refute_by_first c k ids s)
  unfolding Lifecycle.refute_by_first
  refute_by_first-Counted c k [] = ground arith
  refute_by_first-Counted c k (e ∷ ids) = ground arith

  pub refute_by_freshness-Counted :
      (c : ℤ) → Counted s (Lifecycle.refute_disputed_claim_if_ready_by_freshness c s)
  unfolding Lifecycle.refute_disputed_claim_if_ready_by_freshness
      Lifecycle.active_contradictions_by_freshness
  refute_by_freshness-Counted c = grind (arith, refute_by_first-Counted)
