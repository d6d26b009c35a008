-- ===== src/Session/Readiness/Scans.antt =====
-- The scans that the transitions of ragcore/_engine/lifecycle.py make, as Boolean tests.
use intelligent_rag_framewor.Prelude.{
  ℤ, ◌≡◌, refl, sym, ◌∙◌, Bool, true, false, inl, inr, Option, none, some, List, [], ◌∷◌, ok, arith,
  int_eq, eqb_ℤ_iff, all, any, elem, elem_head, elem_tail, is_empty, is_empty-sort_by, sort_by,
  all-sort_by, Every, Every-sort_by, Option-cases,
}
use intelligent_rag_framewor.Prelude.Dict.{lookup, contains, get_or}
use intelligent_rag_framewor.Floats.{Floats}
use intelligent_rag_framewor.Types.{Claim, Evidence, Gap}
use intelligent_rag_framewor.Engine.State.{Engine}
use intelligent_rag_framewor.Engine.Gaps.{gaps_at, gaps_for_claim, gap_resolution}
use intelligent_rag_framewor.Engine.Lifecycle.{all_resolved, refute_by_any, refute_by_first}
use intelligent_rag_framewor.Spec.Valid.{IsValid}

module _ {F : Type 0} (s : Engine F) where
  abbrev pub is_resolved : ℤ → Bool
  is_resolved g = contains g s.gap_resolutions

  all_resolved_scan :
      (gs : List (Gap F))
      → Every (λ g. contains g.id s.gaps ≡ true) gs
      → all_resolved gs s ≡ (ok (all (λ g. is_resolved g.id) gs), s)
  unfolding all_resolved gap_resolution all
  all_resolved_scan [] every = refl
  all_resolved_scan (g ∷ gs) (known, every) = ground (arith, all_resolved_scan gs every)

  -- What a read of the gaps at known ids gives.
  abbrev ReadsAll : List ℤ → List (Gap F) → Type 0
  ReadsAll ids gs =
      (gaps_at ids s ≡ (ok gs, s))
      × Every (λ g. contains g.id s.gaps ≡ true) gs
      × (all (λ g. is_resolved g.id) gs ≡ all is_resolved ids)
      × (is_empty gs ≡ is_empty ids)

  gaps_at_scan :
      (ids : List ℤ)
      → ((k : ℤ) (x : Gap F) → lookup k s.gaps ≡ some x → x.id ≡ k)
      → ((k : ℤ) → elem k ids ≡ true → contains k s.gaps ≡ true)
      → (gs : List (Gap F)) × ReadsAll ids gs
  unfolding gaps_at all
  gaps_at_scan [] stored known = ([], (refl, tt, refl, refl))
  gaps_at_scan (i ∷ ids) stored known = elim (Option-cases (lookup i s.gaps)) [
    | inl absent ↦ absurd (ground (arith, known i (elem_head i ids)))
    | inr (x, found) ↦
        let (gs, (read, every, resolved, empty)) =
          gaps_at_scan ids stored (λ k m. known k (elem_tail i k ids m)) in
        let same : x.id ≡ i = stored i x found in
        (x ∷ gs, (ground arith, (rw same (known i (elem_head i ids)), every), ground arith, refl))
  ]

module _ {F : Type 0} ⦃fl : Floats F⦄ (s : Engine F) (v : IsValid s) (c : ℤ)
    (known : contains c s.claims ≡ true) where
  -- On a known claim of a valid engine, the gaps are read, and `all` of them are resolved just when
  -- all the gaps that the claim refers to are.
  pub gaps_for_claim_scan :
      (gs : List (Gap F)) × (gaps_for_claim c s ≡ (ok gs, s))
      × (all_resolved gs s ≡ (ok (all (is_resolved s) (get_or s.claim_gap_refs c [])), s))
      × (is_empty gs ≡ is_empty (get_or s.claim_gap_refs c []))
  unfolding gaps_for_claim
  gaps_for_claim_scan =
      let (gs, (read, every, resolved, empty)) =
        gaps_at_scan s (get_or s.claim_gap_refs c []) (λ k x found. (v.gap_ids k x found).0)
          (v.referred c) in
      let sorted : List (Gap F) = sort_by (λ g. g.id) gs in
      let scan : all_resolved sorted s ≡ (ok (all (λ g. is_resolved s g.id) sorted), s) =
        all_resolved_scan s sorted
          ((Every-sort_by (λ g. contains g.id s.gaps ≡ true) (λ g. g.id) gs).1 every) in
      let same : all (λ g. is_resolved s g.id) sorted
          ≡ all (is_resolved s) (get_or s.claim_gap_refs c []) =
        all-sort_by (λ g. is_resolved s g.id) (λ g. g.id) gs ∙ resolved in
      (sorted, ground arith, rw (sym same) scan, is_empty-sort_by (λ g. g.id) gs ∙ empty)

abbrev pub strength_test : {F : Type 0} ⦃fl : Floats F⦄ → Option (Evidence F) → Bool
strength_test none = false
strength_test ⦃fl⦄ (some x) = fl.leb (fl.lit 8 10) x.strength.value

module _ {F : Type 0} ⦃fl : Floats F⦄ (s : Engine F) where
  -- a known piece of evidence of strength 0.8 or more
  abbrev pub is_strong : ℤ → Bool
  is_strong e = strength_test (lookup e s.evidences)

  pub refute_by_any_scan :
      (c : ℤ) (claim : Claim F) (ids : List ℤ)
      → ((k : ℤ) → elem k ids ≡ true → contains k s.evidences ≡ true)
      → (refute_by_any c claim ids s).0 ≡ ok (any is_strong ids)
  unfolding refute_by_any any
  refute_by_any_scan c claim [] known = refl
  refute_by_any_scan c claim (i ∷ ids) known = elim (Option-cases (lookup i s.evidences)) [
    | inl absent ↦ absurd (ground (arith, known i (elem_head i ids)))
    | inr (x, found) ↦
        ground (arith, refute_by_any_scan c claim ids (λ k m. known k (elem_tail i k ids m)))
  ]

  pub refute_by_first_scan :
      (c : ℤ) (claim : Claim F) (i : ℤ) (ids : List ℤ)
      → contains i s.evidences ≡ true
      → (refute_by_first c claim (i ∷ ids) s).0 ≡ ok (is_strong i)
  unfolding refute_by_first
  refute_by_first_scan c claim i ids known = ground arith

  abbrev pub first_is_strong : List ℤ → Bool
  first_is_strong [] = false
  first_is_strong (i ∷ ids) = is_strong i

pub any_of : (p : ℤ → Bool) (i : ℤ) (xs : List ℤ) → elem i xs ≡ true → p i ≡ true → any p xs ≡ true
unfolding elem any
any_of p i [] h k = ground arith
any_of p i (x ∷ xs) h k = ground (arith, eqb_ℤ_iff x i, any_of p i xs)
