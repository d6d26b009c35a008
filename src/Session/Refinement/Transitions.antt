-- ===== src/Session/Refinement/Transitions.antt =====
-- The transitions of ragcore/_engine/lifecycle.py, each by what it comes to on a known claim.
use intelligent_rag_framewor.Prelude.{
  ℤ, pos, ◌+ℤ◌, String, ◌≡◌, refl, sym, ◌⊎◌, inl, inr, true, false, none, some, List, [], ◌∷◌, ok,
  raise, arith, int_eq, eqb_ℤ_iff, elem, elem_head, elem_tail, Option-cases, Bool-cases, is_empty,
  sort, reverse, elem-sort, is_empty-sort, reverse-IsLargest, Error,
}
use intelligent_rag_framewor.Prelude.Dict.{lookup, get_or}
use intelligent_rag_framewor.Floats.{Floats}
use intelligent_rag_framewor.Types.{Claim, Evidence, Gap}
use intelligent_rag_framewor.Types.ClaimStatus
use intelligent_rag_framewor.Engine.State.{Engine}
use intelligent_rag_framewor.Engine.Gaps.{gaps_for_claim}
use intelligent_rag_framewor.Engine.Lifecycle.{
  all_resolved, confirm_claim_if_ready, refute_claim_if_ready, dispute_claim_if_ready,
  resolve_disputed_claim_if_ready, refute_disputed_claim_if_ready,
  refute_disputed_claim_if_ready_by_freshness, refute_by_any, refute_by_first,
  active_contradictions_for_claim, active_contradictions_by_freshness,
}
use intelligent_rag_framewor.Session.Revision.{gaps_for_claim_reads, all_resolved_reads}
use intelligent_rag_framewor.Spec.{Edge, IsStrong, active, with_status}

module _ {F : Type 0} ⦃fl : Floats F⦄ (s : Engine F) where
  abbrev pub revised : Engine F → Engine F
  revised t = record t { state_revision = s.state_revision +ℤ pos 1 }

  -- Every transition comes to nothing, or to the status, the record and the revision.
  abbrev pub Transits : ℤ → Claim F → ℤ → String → Type 0 → Engine F → Type 0
  Transits c claim to label Guard t =
      (t ≡ s) ⊎ ((t ≡ revised (with_status s c claim to label)) × Guard)

  pub refute_outcome :
      (c : ℤ) (claim : Claim F)
      → lookup c s.claims ≡ some claim
      → Transits c claim ClaimStatus.refuted "refute_if_ready"
          ((claim.status ≡ ClaimStatus.candidate)
            × (is_empty (get_or s.contradictions c []) ≡ false))
          (refute_claim_if_ready c s).1
  unfolding refute_claim_if_ready
  refute_outcome c claim known = ground (arith, eqb_ℤ_iff claim.status ClaimStatus.candidate)

  pub dispute_outcome :
      (c : ℤ) (claim : Claim F)
      → lookup c s.claims ≡ some claim
      → Transits c claim ClaimStatus.disputed "dispute_if_ready"
          ((claim.status ≡ ClaimStatus.confirmed)
            × (is_empty (get_or s.contradictions c []) ≡ false))
          (dispute_claim_if_ready c s).1
  unfolding dispute_claim_if_ready
  dispute_outcome c claim known = ground (arith, eqb_ℤ_iff claim.status ClaimStatus.confirmed)

  pub resolve_disputed_outcome :
      (c : ℤ) (claim : Claim F)
      → lookup c s.claims ≡ some claim
      → Transits c claim ClaimStatus.confirmed "resolve_disputed_if_ready"
          ((claim.status ≡ ClaimStatus.disputed) × (is_empty (active s c) ≡ true))
          (resolve_disputed_claim_if_ready c s).1
  unfolding resolve_disputed_claim_if_ready active_contradictions_for_claim
  resolve_disputed_outcome c claim known =
      ground (arith, eqb_ℤ_iff claim.status ClaimStatus.disputed, is_empty-sort (active s c))

  pub unknown_claim :
      (c : ℤ)
      → lookup c s.claims ≡ none
      → ((confirm_claim_if_ready c s).1 ≡ s)
        × ((refute_claim_if_ready c s).1 ≡ s)
        × ((dispute_claim_if_ready c s).1 ≡ s)
        × ((resolve_disputed_claim_if_ready c s).1 ≡ s)
        × ((refute_disputed_claim_if_ready c s).1 ≡ s)
        × ((refute_disputed_claim_if_ready_by_freshness c s).1 ≡ s)
  unfolding confirm_claim_if_ready refute_claim_if_ready dispute_claim_if_ready
      resolve_disputed_claim_if_ready refute_disputed_claim_if_ready
      refute_disputed_claim_if_ready_by_freshness
  unknown_claim c unknown =
      (ground arith, ground arith, ground arith, ground arith, ground arith, ground arith)

  abbrev Strong : ℤ → Type 0
  Strong e =
      (x : Evidence F) × (lookup e s.evidences ≡ some x)
      × (fl.leb (fl.lit 8 10) x.strength.value ≡ true)

  -- The loop refutes on the first strong contradiction of the list, if there is one.
  refute_by_any_cons :
      (c : ℤ) (claim : Claim F) (i : ℤ) (ids : List ℤ)
      → ((refute_by_any c claim (i ∷ ids) s).1 ≡ (refute_by_any c claim ids s).1)
        ⊎ (((refute_by_any c claim (i ∷ ids) s).1 ≡ s)
            ⊎ (((refute_by_any c claim (i ∷ ids) s).1
                  ≡ revised (with_status s c claim ClaimStatus.refuted "refute_disputed_if_ready"))
                × Strong i))
  unfolding refute_by_any
  refute_by_any_cons c claim i ids = elim (Option-cases (lookup i s.evidences)) [
    | inl unknown ↦ inr (inl (ground arith))
    | inr (x, known) ↦ elim (Bool-cases (fl.leb (fl.lit 8 10) x.strength.value)) [
      | inl strong ↦ inr (inr (ground arith, (x, known, strong)))
      | inr weak ↦ inl (ground arith)
    ]
  ]

  pub refute_by_any_outcome :
      (c : ℤ) (claim : Claim F) (ids : List ℤ)
      → ((k : ℤ) → elem k ids ≡ true → elem k (active s c) ≡ true)
      → Transits c claim ClaimStatus.refuted "refute_disputed_if_ready"
          ((e : ℤ) × IsStrong s c e)
          (refute_by_any c claim ids s).1
  unfolding refute_by_any
  refute_by_any_outcome c claim [] sub = inl refl
  refute_by_any_outcome c claim (i ∷ ids) sub = elim (refute_by_any_cons c claim i ids) [
    | inl on ↦ rw on (refute_by_any_outcome c claim ids (λ k m. sub k (elem_tail i k ids m)))
    | inr (inl same) ↦ inl same
    | inr (inr (new, strong)) ↦
        inr (new, (i, (sub i (elem_head i ids), strong.0, strong.1, strong.2)))
  ]

  pub refute_disputed_outcome :
      (c : ℤ) (claim : Claim F)
      → lookup c s.claims ≡ some claim
      → ((refute_disputed_claim_if_ready c s).1 ≡ s)
        ⊎ ((claim.status ≡ ClaimStatus.disputed)
            × ((refute_disputed_claim_if_ready c s).1
                ≡ (refute_by_any c claim (sort (active s c)) s).1))
  unfolding refute_disputed_claim_if_ready active_contradictions_for_claim
  refute_disputed_outcome c claim known =
      ground (arith, eqb_ℤ_iff claim.status ClaimStatus.disputed)

  pub refute_by_first_outcome :
      (c : ℤ) (claim : Claim F) (ids : List ℤ)
      → Transits c claim ClaimStatus.refuted "refute_disputed_by_freshness_if_ready"
          ((i : ℤ) × (rest : List ℤ) × (ids ≡ i ∷ rest) × Strong i)
          (refute_by_first c claim ids s).1
  unfolding refute_by_first
  refute_by_first_outcome c claim [] = inl refl
  refute_by_first_outcome c claim (i ∷ ids) = elim (Option-cases (lookup i s.evidences)) [
    | inl unknown ↦ inl (ground arith)
    | inr (x, known) ↦ elim (Bool-cases (fl.leb (fl.lit 8 10) x.strength.value)) [
      | inl strong ↦ inr (ground arith, (i, ids, refl, (x, known, strong)))
      | inr weak ↦ inl (ground arith)
    ]
  ]

  pub refute_by_freshness_outcome :
      (c : ℤ) (claim : Claim F)
      → lookup c s.claims ≡ some claim
      → ((refute_disputed_claim_if_ready_by_freshness c s).1 ≡ s)
        ⊎ ((claim.status ≡ ClaimStatus.disputed)
            × ((refute_disputed_claim_if_ready_by_freshness c s).1
                ≡ (refute_by_first c claim (reverse (sort (active s c))) s).1))
  unfolding refute_disputed_claim_if_ready_by_freshness active_contradictions_by_freshness
  refute_by_freshness_outcome c claim known =
      ground (arith, eqb_ℤ_iff claim.status ClaimStatus.disputed)

  pub refute_by_freshness-Edge :
      (c : ℤ) (claim : Claim F)
      → claim.status ≡ ClaimStatus.disputed
      → Transits c claim ClaimStatus.refuted "refute_disputed_by_freshness_if_ready"
          ((i : ℤ) × (rest : List ℤ) × (reverse (sort (active s c)) ≡ i ∷ rest) × Strong i)
          (refute_by_first c claim (reverse (sort (active s c))) s).1
      → Transits c claim ClaimStatus.refuted "refute_disputed_by_freshness_if_ready"
          (Edge s c claim.status ClaimStatus.refuted "refute_disputed_by_freshness_if_ready")
          (refute_by_first c claim (reverse (sort (active s c))) s).1
  refute_by_freshness-Edge c claim disputed (inl same) = inl same
  refute_by_freshness-Edge c claim disputed (inr (new, (i, rest, first, strong))) =
      let (member, largest) = reverse-IsLargest (active s c) i rest first in
      inr (
        new,
        Edge.refute_by_freshness i disputed refl refl
            (rw (sym (elem-sort i (active s c))) member, strong.0, strong.1, strong.2)
            (λ k m. largest k (rw (elem-sort k (active s c)) m)),
      )

  pub confirm_outcome :
      (c : ℤ) (claim : Claim F) (gs : List (Gap F))
      → lookup c s.claims ≡ some claim
      → (gaps_for_claim c s).0 ≡ ok gs
      → Transits c claim ClaimStatus.confirmed "confirm_if_ready"
          ((claim.status ≡ ClaimStatus.candidate)
            × (is_empty gs ≡ false)
            × ((all_resolved gs s).0 ≡ ok true))
          (confirm_claim_if_ready c s).1
  unfolding confirm_claim_if_ready
  confirm_outcome c claim gs known read = ground (
    arith,
    eqb_ℤ_iff claim.status ClaimStatus.candidate,
    gaps_for_claim_reads s c,
    all_resolved_reads s gs,
  )

  pub confirm_failed :
      (c : ℤ) (claim : Claim F) (e : Error)
      → lookup c s.claims ≡ some claim
      → (gaps_for_claim c s).0 ≡ raise e
      → (confirm_claim_if_ready c s).1 ≡ s
  unfolding confirm_claim_if_ready
  confirm_failed c claim e known failed = ground (arith, gaps_for_claim_reads s c)
