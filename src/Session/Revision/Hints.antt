-- ===== src/Session/Revision/Hints.antt =====
-- What the calls of ragcore/_engine/hint_evidence.py do to the revision: the size of the set changes
-- exactly when the set does.
use Prim.Native.Nat.{◌+◌}
use intelligent_rag_framewor.Prelude.{
  ℤ, ◌≤◌, List, [], ◌∷◌, ◌++◌, ◌≡◌, refl, arith, int_eq, length, filter_by, adjoin, difference,
  Bool, eqb, Bool-cases, Result-cases, inl, inr,
}
use intelligent_rag_framewor.Value.{Value}
use intelligent_rag_framewor.Engine.State.{Engine}
use intelligent_rag_framewor.Engine.HintEvidence.{
  update_set, change_hints, register_hint_evidence_types, unregister_hint_evidence_types,
  clear_hint_evidence_types, validate_hint_evidence_type_values,
}
use intelligent_rag_framewor.Session.Revision.Crud.{Counted}

length-append : (xs ys : List ℤ) → length (xs ++ ys) ≡ length xs + length ys
length-append [] ys = omega arith
length-append (x ∷ xs) ys = omega (arith, length-append xs ys)

-- Adding one value keeps the list or makes it longer.
length-adjoin : (n : ℤ) (xs : List ℤ) → length (adjoin n xs) ≤ length xs → adjoin n xs ≡ xs
unfolding adjoin
length-adjoin n xs h = ground (arith, length-append xs (n ∷ []))

length-le-adjoin : (n : ℤ) (xs : List ℤ) → length xs ≤ length (adjoin n xs)
unfolding adjoin
length-le-adjoin n xs = ground (arith, length-append xs (n ∷ []))

length-le-update_set : (xs ns : List ℤ) → length xs ≤ length (update_set xs ns)
unfolding update_set
length-le-update_set xs [] = omega arith
length-le-update_set xs (n ∷ ns) =
    omega (arith, length-le-adjoin n xs, length-le-update_set (adjoin n xs) ns)

length-update_set : (xs ns : List ℤ) → length (update_set xs ns) ≤ length xs → update_set xs ns ≡ xs
unfolding update_set
length-update_set xs [] h = refl
length-update_set xs (n ∷ ns) h = ground (
  arith,
  length-le-update_set (adjoin n xs) ns,
  length-adjoin n xs,
  length-le-adjoin n xs,
  length-update_set (adjoin n xs) ns,
)

length-filter_by-le : (p : ℤ → Bool) (xs : List ℤ) → length (filter_by p xs) ≤ length xs
unfolding filter_by
length-filter_by-le p [] = omega arith
length-filter_by-le p (x ∷ xs) = ground (arith, length-filter_by-le p xs)

length-filter_by :
    (p : ℤ → Bool) (xs : List ℤ) → length xs ≤ length (filter_by p xs) → filter_by p xs ≡ xs
unfolding filter_by
length-filter_by p [] h = refl
length-filter_by p (x ∷ xs) h = ground (arith, length-filter_by-le p xs, length-filter_by p xs)

module _ {F : Type 0} (s : Engine F) where
  change_hints-Counted :
      (changed : List ℤ)
      → (length changed ≡ length s.hint_evidence_types → changed ≡ s.hint_evidence_types)
      → Counted s (change_hints changed s)
  unfolding change_hints
  change_hints-Counted changed same =
      elim (Bool-cases (eqb (length changed) (length s.hint_evidence_types))) [
        | inl e ↦ ground (arith, same (ground arith))
        | inr e ↦ ground arith
      ]

  pub register-Counted : (types : Value F) → Counted s (register_hint_evidence_types types s)
  unfolding register_hint_evidence_types
  register-Counted types = elim (Result-cases (validate_hint_evidence_type_values types)) [
    | inl (ns, valid) ↦ rw valid (
        change_hints-Counted (update_set s.hint_evidence_types ns)
          (λ h. length-update_set s.hint_evidence_types ns (omega arith)))
    | inr (e, invalid) ↦ rw invalid refl
  ]

  pub unregister-Counted : (types : Value F) → Counted s (unregister_hint_evidence_types types s)
  unfolding unregister_hint_evidence_types difference
  unregister-Counted types = elim (Result-cases (validate_hint_evidence_type_values types)) [
    | inl (ns, valid) ↦ rw valid (
        change_hints-Counted (difference s.hint_evidence_types ns)
          (λ h. length-filter_by _ s.hint_evidence_types (omega arith)))
    | inr (e, invalid) ↦ rw invalid refl
  ]

  pub clear-Counted : Counted s (clear_hint_evidence_types s)
  unfolding clear_hint_evidence_types
  clear-Counted = ground arith
