-- ===== src/Session/Readiness.antt =====
-- What each transition of ragcore/_engine/lifecycle.py answers, against a direct reading of the state.
pub mod Scans
use intelligent_rag_framewor.Prelude.{
  ℤ, ◌≤ℤ◌, ◌≡◌, ◌≢◌, ◌⊎◌, refl, sym, ◌↔◌, Bool, true, false, ◌&&◌, not, inl, inr, some, List, [],
  ◌∷◌, ok, arith, int_laws, ap, eq_of_parts, int_eq, ◌==◌, all, any, elem, elem-sort, is_empty,
  is_empty-sort, sort, any-sort_by, reverse, reverse-IsLargest, eqb_ℤ_iff, elem-difference,
  elem-nil,
}
use intelligent_rag_framewor.Prelude.Dict.{lookup, contains, get_or}
use mathlib.Core.List.{reverse_aux}
use intelligent_rag_framewor.Floats.{Floats}
use intelligent_rag_framewor.Types.{Claim, Gap}
use intelligent_rag_framewor.Types.ClaimStatus
use intelligent_rag_framewor.Engine.State.{Engine}
use intelligent_rag_framewor.Engine.Lifecycle.{
  confirm_claim_if_ready, refute_claim_if_ready, dispute_claim_if_ready,
  resolve_disputed_claim_if_ready, refute_disputed_claim_if_ready,
  refute_disputed_claim_if_ready_by_freshness, refute_by_any, refute_by_first,
  active_contradictions_for_claim, active_contradictions_by_freshness,
}
use intelligent_rag_framewor.Session.Readiness.Scans.{
  is_resolved, is_strong, first_is_strong, any_of, gaps_for_claim_scan, refute_by_any_scan,
  refute_by_first_scan,
}
use intelligent_rag_framewor.Spec.{active}
use intelligent_rag_framewor.Spec.Valid.{IsValid}

List-cases : (xs : List ℤ) → (xs ≡ []) ⊎ ((x : ℤ) × (rest : List ℤ) × (xs ≡ x ∷ rest))
List-cases [] = inl refl
List-cases (x ∷ rest) = inr (x, rest, refl)

reverse_onto : (xs acc : List ℤ) (y : ℤ) → reverse_aux xs (y ∷ acc) ≢ []
reverse_onto [] acc y h = ground arith
reverse_onto (x ∷ xs) acc y h = reverse_onto xs (y ∷ acc) x h

reverse_nil : (xs : List ℤ) → reverse xs ≡ [] → xs ≡ []
reverse_nil [] h = refl
reverse_nil (x ∷ xs) h = absurd (reverse_onto xs [] x h)

module _ {F : Type 0} (s : Engine F) (c : ℤ) where
  -- an active contradiction that none of the active ones is newer than
  abbrev pub IsFreshest : ℤ → Type 0
  IsFreshest e = (elem e (active s c) ≡ true) × ((k : ℤ) → elem k (active s c) ≡ true → k ≤ℤ e)

  pub freshest_lem : (i : ℤ) (rest : List ℤ) → reverse (sort (active s c)) ≡ i ∷ rest → IsFreshest i
  freshest_lem i rest first =
      let (member, largest) = reverse-IsLargest (active s c) i rest first in
      (
        rw (sym (elem-sort i (active s c))) member,
        λ k m. largest k (rw (elem-sort k (active s c)) m),
      )

  pub freshest_unique : (i e : ℤ) → IsFreshest i → IsFreshest e → i ≡ e
  freshest_unique i e (own, newest) (member, largest) =
      eq_of_parts i e (ground (arith, newest e member, largest i own))

  pub active-freshness :
      (e : ℤ)
      → elem e (active s c) ≡ true
      → (i : ℤ) × (rest : List ℤ) × (reverse (sort (active s c)) ≡ i ∷ rest)
  active-freshness e h = elim (List-cases (reverse (sort (active s c)))) [
    | inl none_left ↦
        let sorted_nil : sort (active s c) ≡ [] = reverse_nil (sort (active s c)) none_left in
        let missing : elem e (sort (active s c)) ≡ false = rw sorted_nil (elem-nil e) in
        absurd (ground (arith, elem-sort e (active s c)))
    | inr (i, rest, same) ↦ (i, rest, same)
  ]

module _ {F : Type 0} ⦃fl : Floats F⦄ (s : Engine F) (v : IsValid s) (c : ℤ) where
  pub active_known : (k : ℤ) → elem k (active s c) ≡ true → contains k s.evidences ≡ true
  active_known k h = v.contradicting c k (
      ground (
        arith,
        elem-difference k (get_or s.contradictions c []) (get_or s.resolved_contradictions c []),
      ))

module _ {F : Type 0} ⦃fl : Floats F⦄ (s : Engine F) (v : IsValid s) (c : ℤ) (claim : Claim F)
    (known : lookup c s.claims ≡ some claim) where
  -- On a known claim of a valid engine, `confirm_claim_if_ready` returns: true just when the claim
  -- is a candidate that refers to some gap, and all the gaps it refers to are resolved.
  pub confirm_claim_if_ready_lem :
      (confirm_claim_if_ready c s).0
      ≡ ok (
          claim.status == ClaimStatus.candidate
          && (not (is_empty (get_or s.claim_gap_refs c []))
              && all (is_resolved s) (get_or s.claim_gap_refs c [])))
  unfolding confirm_claim_if_ready
  confirm_claim_if_ready_lem =
      let (gs, read, ready, empty) = gaps_for_claim_scan s v c (ground arith) in ground arith

  -- On a known claim of a valid engine, `refute_disputed_claim_if_ready` returns: true just when the
  -- claim is disputed and some contradiction of it that is not settled has strength 0.8 or more.
  pub refute_disputed_claim_if_ready_lem :
      (refute_disputed_claim_if_ready c s).0
      ≡ ok (claim.status == ClaimStatus.disputed && any (is_strong s) (active s c))
  unfolding refute_disputed_claim_if_ready active_contradictions_for_claim sort
  refute_disputed_claim_if_ready_lem = ground (
    arith,
    refute_by_any_scan s c claim (sort (active s c))
        (λ k m. active_known s v c k (rw (sym (elem-sort k (active s c))) m)),
    any-sort_by (is_strong s) (λ n. n) (active s c),
  )

  by_freshness_first :
      (ids : List ℤ)
      → reverse (sort (active s c)) ≡ ids
      → (refute_disputed_claim_if_ready_by_freshness c s).0
        ≡ ok (claim.status == ClaimStatus.disputed && first_is_strong s ids)
  unfolding refute_disputed_claim_if_ready_by_freshness active_contradictions_by_freshness
      refute_by_first
  by_freshness_first [] same = ground arith
  by_freshness_first (i ∷ ids) same = ground (
    arith,
    refute_by_first_scan s c claim i ids (active_known s v c i (freshest_lem s c i ids same).0),
  )

  abbrev IsDecided : Type 0
  IsDecided =
      (claim.status ≡ ClaimStatus.disputed) × ((e : ℤ) × IsFreshest s c e × (is_strong s e ≡ true))

  by_freshness_strong :
      (ids : List ℤ)
      → reverse (sort (active s c)) ≡ ids
      → (claim.status == ClaimStatus.disputed && first_is_strong s ids) ≡ true
      → IsDecided
  by_freshness_strong [] same h = absurd (ground arith)
  by_freshness_strong (i ∷ ids) same h = (
    (eqb_ℤ_iff claim.status ClaimStatus.disputed).0 (ground arith),
    (i, freshest_lem s c i ids same, ground arith),
  )

  strong_by_freshness :
      (ids : List ℤ)
      → reverse (sort (active s c)) ≡ ids
      → IsDecided
      → (claim.status == ClaimStatus.disputed && first_is_strong s ids) ≡ true
  strong_by_freshness [] same (disputed, (e, (member, largest), strong)) =
      let (i, rest, other) = active-freshness s c e member in absurd (ground arith)
  strong_by_freshness (i ∷ ids) same (disputed, (e, (member, largest), strong)) =
      let here : i ≡ e = freshest_unique s c i e (freshest_lem s c i ids same) (member, largest) in
      ground (arith, eqb_ℤ_iff claim.status ClaimStatus.disputed)

  decided_by_any : IsDecided → (refute_disputed_claim_if_ready c s).0 ≡ ok true
  decided_by_any (disputed, (e, (member, largest), strong)) = ground (
    arith,
    eqb_ℤ_iff claim.status ClaimStatus.disputed,
    refute_disputed_claim_if_ready_lem,
    any_of (is_strong s) e (active s c) member strong,
  )

  -- On a known claim of a valid engine, `refute_disputed_claim_if_ready_by_freshness` returns, and it
  -- returns true exactly if the claim is disputed and its freshest active contradiction, the one of
  -- the largest id, has strength 0.8 or more; where it returns true,
  -- `refute_disputed_claim_if_ready` would return true as well.
  pub by_freshness_lem :
      (b : Bool) × ((refute_disputed_claim_if_ready_by_freshness c s).0 ≡ ok b)
      × ((b ≡ true) ↔ (
          (claim.status ≡ ClaimStatus.disputed)
          × ((e : ℤ) × IsFreshest s c e × (is_strong s e ≡ true))))
      × (b ≡ true → (refute_disputed_claim_if_ready c s).0 ≡ ok true)
  by_freshness_lem =
      let ids : List ℤ = reverse (sort (active s c)) in
      (
        claim.status == ClaimStatus.disputed && first_is_strong s ids,
        by_freshness_first ids refl,
        (by_freshness_strong ids refl, strong_by_freshness ids refl),
        λ h. decided_by_any (by_freshness_strong ids refl h),
      )
