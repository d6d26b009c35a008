-- ===== src/Prelude/Listwise.antt =====
-- A predicate on all the members of a list, and what `sorted` keeps of it.
use mathlib.Core.Logic.{◌↔◌}
use mathlib.Core.List.{List, [], ◌∷◌}
use native.Mathlib.Omega.{arith}
use intelligent_rag_framewor.Prelude.IntDefs.{ℤ}
use intelligent_rag_framewor.Prelude.Sorting.{insert_by, sort_by}

abbrev pub Every : {A : Type 0} → (A → Type 0) → List A → Type 0
Every P [] = Unit
Every P (x ∷ xs) = P x × Every P xs

module _ {A : Type 0} (P : A → Type 0) (key : A → ℤ) where
  Every-insert_by : (a : A) (xs : List A) → Every P (insert_by key a xs) ↔ (P a × Every P xs)
  unfolding insert_by
  Every-insert_by a [] = ground arith
  Every-insert_by a (x ∷ xs) = ground (arith, Every-insert_by a xs)

  pub Every-sort_by : (xs : List A) → Every P (sort_by key xs) ↔ Every P xs
  unfolding sort_by
  Every-sort_by [] = ground arith
  Every-sort_by (x ∷ xs) = ground (arith, Every-insert_by x (sort_by key xs), Every-sort_by xs)
