-- ===== src/Session/Refinement/Reads.antt =====
-- What the reads of ragcore/_engine/gaps.py and lifecycle.py say of the gaps of a claim.
use intelligent_rag_framewor.Prelude.{
  ℤ, ◌≡◌, refl, inl, inr, Option-cases, Result-cases, Bool-cases, sym, ap, ◌∙◌, eqb_ℤ, true, some,
  List, [], ◌∷◌, ok, arith, int_eq, eqb_ℤ_iff, elem, elem_tail, elem_head, Every, Every-sort_by,
  is_empty, is_empty-sort_by, sort_by,
}
use intelligent_rag_framewor.Prelude.Dict.{lookup, contains, get_or}
use intelligent_rag_framewor.Floats.{Floats}
use intelligent_rag_framewor.Types.{Gap}
use intelligent_rag_framewor.Engine.State.{Engine}
use intelligent_rag_framewor.Engine.Gaps.{gaps_at, gaps_for_claim, gap_resolution}
use intelligent_rag_framewor.Engine.Lifecycle.{all_resolved}
use intelligent_rag_framewor.Session.Revision.{gaps_at_reads}
use intelligent_rag_framewor.Spec.Valid.{IsValid}

module _ {F : Type 0} (s : Engine F) where
  -- the gap is the one stored at its id, and the claim refers to it
  abbrev pub Referred : ℤ → Gap F → Type 0
  Referred c g = (lookup g.id s.gaps ≡ some g) × (elem g.id (get_or s.claim_gap_refs c []) ≡ true)

  abbrev IsIdOf : Type 0
  IsIdOf = (k : ℤ) (x : Gap F) → lookup k s.gaps ≡ some x → x.id ≡ k

  abbrev pub Resolved : ℤ → Type 0
  Resolved g = contains g s.gap_resolutions ≡ true

  gaps_at_cons :
      (i : ℤ) (ids : List ℤ) (gs : List (Gap F))
      → (gaps_at (i ∷ ids) s).0 ≡ ok gs
      → (x : Gap F) × (rest : List (Gap F)) × (lookup i s.gaps ≡ some x)
        × ((gaps_at ids s).0 ≡ ok rest)
        × (gs ≡ x ∷ rest)
  unfolding gaps_at
  gaps_at_cons i ids gs h = elim (Option-cases (lookup i s.gaps)) [
    | inl unknown ↦ ground (arith)
    | inr (x, known) ↦ elim (Result-cases (gaps_at ids s).0) [
      | inl (rest, read) ↦ (x, rest, known, read, ground (arith, gaps_at_reads s ids))
      | inr (e, failed) ↦ ground (arith)
    ]
  ]

  -- The gaps read have the ids asked for, one by one.
  gaps_at-Every :
      (P : ℤ → Type 0) (ids : List ℤ) (gs : List (Gap F))
      → IsIdOf
      → ((k : ℤ) → elem k ids ≡ true → P k)
      → (gaps_at ids s).0 ≡ ok gs
      → Every (λ g. (lookup g.id s.gaps ≡ some g) × P g.id) gs
  unfolding gaps_at
  gaps_at-Every P [] gs stored all h = ground arith
  gaps_at-Every P (i ∷ ids) gs stored all h =
      let (x, rest, found, read, same) = gaps_at_cons i ids gs h in
      let same_id : x.id ≡ i = stored i x found in
      rw same (
        (rw same_id found, rw same_id (all i (elem_head i ids))),
        gaps_at-Every P ids rest stored (λ k m. all k (elem_tail i k ids m)) read,
      )

  gaps_for_claim_read :
      (c : ℤ) (gs : List (Gap F))
      → (gaps_for_claim c s).0 ≡ ok gs
      → (xs : List (Gap F)) × ((gaps_at (get_or s.claim_gap_refs c []) s).0 ≡ ok xs)
        × (gs ≡ sort_by (λ g. g.id) xs)
  unfolding gaps_for_claim
  gaps_for_claim_read c gs h = elim (Result-cases (gaps_at (get_or s.claim_gap_refs c []) s).0) [
    | inl (xs, read) ↦ (xs, read, ground (arith, gaps_at_reads s (get_or s.claim_gap_refs c [])))
    | inr (e, failed) ↦ ground arith
  ]

  -- The ids of the gaps that a claim refers to are those of the gaps read for it.
  gaps_at-covers :
      (P : ℤ → Type 0) (ids : List ℤ) (gs : List (Gap F))
      → IsIdOf
      → (gaps_at ids s).0 ≡ ok gs
      → Every (λ g. P g.id) gs
      → (k : ℤ) → elem k ids ≡ true
      → P k
  unfolding gaps_at elem
  gaps_at-covers P [] gs stored h every k m = ground arith
  gaps_at-covers P (i ∷ ids) gs stored h every k m =
      let (x, rest, found, read, same) = gaps_at_cons i ids gs h in
      let parts : P x.id × Every (λ g. P g.id) rest =
        coe 0 1 (j. Every (λ g. P g.id) (same j)) every in
      elim (Bool-cases (eqb_ℤ i k)) [
        | inl here ↦
            let same_id : x.id ≡ k = ground (arith, stored i x found, eqb_ℤ_iff i k) in
            coe 0 1 (j. P (same_id j)) parts.0
        | inr there ↦ gaps_at-covers P ids rest stored read parts.1 k (ground arith)
      ]

  all_resolved_cons :
      (g : Gap F) (gs : List (Gap F))
      → (all_resolved (g ∷ gs) s).0 ≡ ok true
      → Resolved g.id × ((all_resolved gs s).0 ≡ ok true)
  unfolding all_resolved gap_resolution
  all_resolved_cons g gs h = ground arith

  all_resolved-Every :
      (gs : List (Gap F)) → (all_resolved gs s).0 ≡ ok true → Every (λ g. Resolved g.id) gs
  unfolding all_resolved
  all_resolved-Every [] h = tt
  all_resolved-Every (g ∷ gs) h =
      let (resolved, rest) = all_resolved_cons g gs h in (resolved, all_resolved-Every gs rest)

module _ {F : Type 0} ⦃fl : Floats F⦄ (s : Engine F) (v : IsValid s) (c : ℤ) (gs : List (Gap F))
    (h : (gaps_for_claim c s).0 ≡ ok gs) where
  pub gaps_for_claim-Referred : Every (Referred s c) gs
  gaps_for_claim-Referred =
      let (xs, read, same) = gaps_for_claim_read s c gs h in
      rw same (
        (Every-sort_by (Referred s c) (λ g. g.id) xs).1 (
          gaps_at-Every s (λ k. elem k (get_or s.claim_gap_refs c []) ≡ true)
            (get_or s.claim_gap_refs c []) xs (λ k x found. (v.gap_ids k x found).0) (λ k m. m)
            read))

  -- Where `all` of `confirm_claim_if_ready` says yes, every gap of the claim is resolved.
  pub all_resolved-covers :
      (all_resolved gs s).0 ≡ ok true
      → (k : ℤ) → elem k (get_or s.claim_gap_refs c []) ≡ true
      → Resolved s k
  all_resolved-covers ready =
      let (xs, read, same) = gaps_for_claim_read s c gs h in
      gaps_at-covers s (Resolved s) (get_or s.claim_gap_refs c []) xs
        (λ k x found. (v.gap_ids k x found).0) read
        ((Every-sort_by (λ g. Resolved s g.id) (λ g. g.id) xs).0
          (all_resolved-Every s (sort_by (λ g. g.id) xs) (rw (sym same) ready)))

  gaps_at-is_empty :
      (ids : List ℤ) (xs : List (Gap F)) → (gaps_at ids s).0 ≡ ok xs → is_empty ids ≡ is_empty xs
  unfolding gaps_at
  gaps_at-is_empty [] xs read = ground arith
  gaps_at-is_empty (i ∷ ids) xs read =
      let (x, rest, found, rest_read, same) = gaps_at_cons s i ids xs read in rw same refl

  pub gaps_for_claim-is_empty : is_empty (get_or s.claim_gap_refs c []) ≡ is_empty gs
  gaps_for_claim-is_empty =
      let (xs, read, same) = gaps_for_claim_read s c gs h in
      gaps_at-is_empty (get_or s.claim_gap_refs c []) xs read
      ∙ (sym (is_empty-sort_by (λ g. g.id) xs) ∙ ap is_empty (sym same))
