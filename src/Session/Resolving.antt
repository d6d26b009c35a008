-- ===== src/Session/Resolving.antt =====
-- What `resolve_gaps_for_evidence` of ragcore/_engine/gaps.py resolves, and reports.
use intelligent_rag_framewor.Prelude.{
  ℤ, ◌≡◌, refl, ap, ◌∙◌, Bool, true, false, ◌&&◌, not, inl, inr, Option, none, some, List, [], ◌∷◌,
  ◌++◌, Result, ok, raise, arith, int_eq, ◌==◌, eqb_ℤ_iff, any, elem, elem-append, elem-nil,
  elem_head, elem_tail, elem-sort, sort, sort_by, any-sort_by, Option-cases, if◌then◌else◌,
  IsSorted, sort_by-IsSorted,
}
use intelligent_rag_framewor.Prelude.Dict.{lookup, contains, get_or, lookup-insert}
use intelligent_rag_framewor.Floats.{Floats}
use intelligent_rag_framewor.Types.{Evidence, Gap}
use intelligent_rag_framewor.Engine.State.{Engine}
use intelligent_rag_framewor.Engine.Gaps.{
  gaps_at, gaps_for_claim, resolve_gap, resolve_each, resolve_gaps_for_evidence,
}
use intelligent_rag_framewor.Spec.Valid.{IsValid}

abbrev ids_of : Result (List ℤ) → List ℤ
ids_of (ok ids) = ids
ids_of (raise e) = []

elem_one : (k j : ℤ) → elem k (j ∷ []) ≡ (j == k)
unfolding elem
elem_one k j = ground arith

-- the gap has the id, and wants the type of the evidence
abbrev matches : {F : Type 0} → Evidence F → ℤ → Gap F → Bool
matches ev k g = g.id == k && g.required_evidence_type == ev.type

module _ {F : Type 0} (i : ℤ) (ev : Evidence F) where
  -- The id is reported just when it was free and the test says yes, and then, and only then, its
  -- resolution is the evidence.
  abbrev Reports : Engine F → Result (List ℤ) × Engine F → ℤ → Bool → Type 0
  Reports s (r, t) k test =
      (r ≡ ok (ids_of r))
      × (elem k (ids_of r) ≡ (not (contains k s.gap_resolutions) && test))
      × (lookup k t.gap_resolutions
          ≡ (if elem k (ids_of r) then some i else lookup k s.gap_resolutions))

  resolve_gap_lem :
      (g : Gap F) (s : Engine F) (k : ℤ) → Reports s (resolve_gap i ev g s) k (matches ev k g)
  unfolding resolve_gap
  resolve_gap_lem g s k = ground (
    arith,
    elem-nil k,
    elem_one k g.id,
    lookup-insert g.id k i s.gap_resolutions,
    eqb_ℤ_iff g.id k,
  )

  resolve_each_cons :
      (g : Gap F) (gs : List (Gap F)) (s : Engine F)
      → (resolve_gap i ev g s).0 ≡ ok (ids_of (resolve_gap i ev g s).0)
      → let t = resolve_each i ev gs (resolve_gap i ev g s).1 in
        t.0 ≡ ok (ids_of t.0)
        → ((resolve_each i ev (g ∷ gs) s).0 ≡ ok (ids_of (resolve_gap i ev g s).0 ++ ids_of t.0))
          × ((resolve_each i ev (g ∷ gs) s).1 ≡ t.1)
  unfolding resolve_each
  resolve_each_cons g gs s h k = ground arith

  resolve_each_lem :
      (gs : List (Gap F)) (s : Engine F) (k : ℤ)
      → Reports s (resolve_each i ev gs s) k (any (matches ev k) gs)
  unfolding resolve_each any
  resolve_each_lem [] s k = ground (arith, elem-nil k)
  resolve_each_lem (g ∷ gs) s k =
      let first : Engine F = (resolve_gap i ev g s).1 in
      let (one_ok, one_in, one_at) = resolve_gap_lem g s k in
      let (rest_ok, rest_in, rest_at) = resolve_each_lem gs first k in
      let (both, end) = resolve_each_cons g gs s one_ok rest_ok in
      rw (both, end)
        (
          refl,
          ground (
            arith,
            elem-append k (ids_of (resolve_gap i ev g s).0) (ids_of (resolve_each i ev gs first).0),
          ),
          ground (
            arith,
            elem-append k (ids_of (resolve_gap i ev g s).0) (ids_of (resolve_each i ev gs first).0),
          ),
        )

-- there is a gap, and it wants the type
abbrev pub wants : {F : Type 0} → ℤ → Option (Gap F) → Bool
wants type none = false
wants type (some g) = g.required_evidence_type == type

module _ {F : Type 0} (s : Engine F) (ev : Evidence F) where
  gaps_at-any :
      (ids : List ℤ)
      → ((k : ℤ) (x : Gap F) → lookup k s.gaps ≡ some x → x.id ≡ k)
      → ((k : ℤ) → elem k ids ≡ true → contains k s.gaps ≡ true)
      → (gs : List (Gap F)) × (gaps_at ids s ≡ (ok gs, s))
        × ((k : ℤ) → any (matches ev k) gs ≡ (elem k ids && wants ev.type (lookup k s.gaps)))
  unfolding gaps_at any elem
  gaps_at-any [] stored known = ([], refl, λ k. refl)
  gaps_at-any (i ∷ ids) stored known = elim (Option-cases (lookup i s.gaps)) [
    | inl absent ↦ absurd (ground (arith, known i (elem_head i ids)))
    | inr (x, found) ↦
        let (gs, read, scan) = gaps_at-any ids stored (λ k m. known k (elem_tail i k ids m)) in
        let same : x.id ≡ i = stored i x found in
        (x ∷ gs, ground arith, λ k. ground (arith, scan k, eqb_ℤ_iff i k, same, found))
  ]

module _ {F : Type 0} ⦃fl : Floats F⦄ (s : Engine F) (v : IsValid s) (e : ℤ) (ev : Evidence F)
    (known : lookup e s.evidences ≡ some ev) where
  gaps_for_claim-any :
      (gs : List (Gap F)) × (gaps_for_claim ev.claim_id s ≡ (ok gs, s))
      × ((k : ℤ)
          → any (matches ev k) gs
            ≡ (elem k (get_or s.claim_gap_refs ev.claim_id []) && wants ev.type (lookup k s.gaps)))
  unfolding gaps_for_claim
  gaps_for_claim-any =
      let (gs, read, scan) =
        gaps_at-any s ev (get_or s.claim_gap_refs ev.claim_id [])
          (λ k x found. (v.gap_ids k x found).0) (v.referred ev.claim_id) in
      (
        sort_by (λ g. g.id) gs,
        ground (arith, v.supported e ev known),
        λ k. any-sort_by (matches ev k) (λ g. g.id) gs ∙ scan k,
      )

  -- On a valid engine, `resolve_gaps_for_evidence` returns, for a known piece of evidence, the sorted
  -- ids of the gaps that the claim of the evidence refers to, that want its type and that had no
  -- resolution. These gaps, and no others, get the evidence as their resolution.
  pub resolve_gaps_for_evidence_lem :
      (ids : List ℤ) × ((resolve_gaps_for_evidence e s).0 ≡ ok ids)
      × IsSorted (λ (n : ℤ). n) ids
      × ((g : ℤ)
          → (elem g ids ≡ (
              not (contains g s.gap_resolutions)
              && (elem g (get_or s.claim_gap_refs ev.claim_id [])
                  && wants ev.type (lookup g s.gaps))))
            × (lookup g (resolve_gaps_for_evidence e s).1.gap_resolutions
                ≡ (if elem g ids then some e else lookup g s.gap_resolutions)))
  unfolding resolve_gaps_for_evidence sort
  resolve_gaps_for_evidence_lem =
      let (gs, read, scan) = gaps_for_claim-any in
      let new : List ℤ = ids_of (resolve_each e ev gs s).0 in
      (
        sort new,
        ground (arith, resolve_each_lem e ev gs s e),
        sort_by-IsSorted (λ n. n) new,
        λ g. (
          elem-sort g new
              ∙ (resolve_each_lem e ev gs s g).1
              ∙ ap (λ b. not (contains g s.gap_resolutions) && b) (scan g),
          ground (arith, elem-sort g new, resolve_each_lem e ev gs s g),
        ),
      )
