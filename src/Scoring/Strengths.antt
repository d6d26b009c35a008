-- ===== src/Scoring/Strengths.antt =====
-- The strengths that the adapters of ragcore/_engine/confidence_adapters.py read.
use intelligent_rag_framewor.Prelude.{
  ℤ, ◌≡◌, refl, sym, ap, ◌∙◌, true, inl, inr, Option, none, some, List, [], ◌∷◌, ok, suc, arith,
  int_eq, length, elem, elem_head, elem_tail, elem-difference, elem-sort, sort, sort_by, insert_by,
  reverse, Every, Option-cases, reverse-IsLargest,
}
use intelligent_rag_framewor.Prelude.Dict.{lookup, contains, get_or}
use intelligent_rag_framewor.Floats.{Floats}
use intelligent_rag_framewor.Engine.State.{Engine}
use intelligent_rag_framewor.Engine.ConfidenceAdapters.{
  strength_of, strengths_of, most_recent_strength,
}
use intelligent_rag_framewor.Scoring.Units.{IsUnit, in_unit-IsUnit}
use intelligent_rag_framewor.Scoring.Modifiers.{OptionIsUnit}
use intelligent_rag_framewor.Spec.{active}
use intelligent_rag_framewor.Spec.Valid.{IsValid}

length-insert_by : (x : ℤ) (xs : List ℤ) → length (insert_by (λ n. n) x xs) ≡ suc (length xs)
unfolding insert_by
length-insert_by x [] = refl
length-insert_by x (y ∷ ys) = ground (arith, length-insert_by x ys)

length-sort : (xs : List ℤ) → length (sort xs) ≡ length xs
unfolding sort sort_by
length-sort [] = refl
length-sort (x ∷ xs) = length-insert_by x (sort xs) ∙ ap suc (length-sort xs)

module _ {F : Type 0} ⦃fl : Floats F⦄ (s : Engine F) (v : IsValid s) where
  abbrev KnownIds : List ℤ → Type 0
  KnownIds ids = (k : ℤ) → elem k ids ≡ true → contains k s.evidences ≡ true

  active_known : (c k : ℤ) → elem k (active s c) ≡ true → contains k s.evidences ≡ true
  active_known c k h = v.contradicting c k (
      ground (
        arith,
        elem-difference k (get_or s.contradictions c []) (get_or s.resolved_contradictions c []),
      ))

  strength_of_lem :
      (i : ℤ) → contains i s.evidences ≡ true → (a : F) × (strength_of i s ≡ (ok a, s)) × IsUnit a
  unfolding strength_of
  strength_of_lem i known = elim (Option-cases (lookup i s.evidences)) [
    | inl absent ↦ absurd (ground arith)
    | inr (x, found) ↦
        (x.strength.value, ground arith, in_unit-IsUnit x.strength.value (v.strengths i x found))
  ]

  strengths_of_lem :
      (ids : List ℤ)
      → KnownIds ids
      → (xs : List F) × (strengths_of ids s ≡ (ok xs, s))
        × Every IsUnit xs
        × (length xs ≡ length ids)
  unfolding strengths_of
  strengths_of_lem [] known = ([], refl, tt, refl)
  strengths_of_lem (i ∷ ids) known =
      let (a, read, unit) = strength_of_lem i (known i (elem_head i ids)) in
      let (xs, reads, units, same) = strengths_of_lem ids (λ k m. known k (elem_tail i k ids m)) in
      (a ∷ xs, ground arith, (unit, units), ap suc same)

  most_recent_strength_lem :
      (ids : List ℤ)
      → ((i : ℤ) (rest : List ℤ) → ids ≡ i ∷ rest → contains i s.evidences ≡ true)
      → (o : Option F) × (most_recent_strength ids s ≡ (ok o, s)) × OptionIsUnit o
  unfolding most_recent_strength
  most_recent_strength_lem [] known = (none, refl, tt)
  most_recent_strength_lem (i ∷ ids) known =
      let (a, read, unit) = strength_of_lem i (known i ids refl) in (some a, ground arith, unit)

  pub freshest_strength_lem :
      (c : ℤ)
      → (o : Option F) × (most_recent_strength (reverse (sort (active s c))) s ≡ (ok o, s))
        × OptionIsUnit o
  freshest_strength_lem c = most_recent_strength_lem (reverse (sort (active s c))) (λ i rest first.
      active_known c i
        (rw (sym (elem-sort i (active s c))) (reverse-IsLargest (active s c) i rest first).0))

  pub active_strengths_lem :
      (c : ℤ)
      → (xs : List F) × (strengths_of (sort (active s c)) s ≡ (ok xs, s))
        × Every IsUnit xs
        × (length xs ≡ length (active s c))
  active_strengths_lem c =
      let (xs, read, units, same) =
        strengths_of_lem (sort (active s c))
          (λ k m. active_known c k (rw (sym (elem-sort k (active s c))) m)) in
      (xs, read, units, same ∙ length-sort (active s c))
