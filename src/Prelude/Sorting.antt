-- ===== src/Prelude/Sorting.antt =====
-- `sorted` on integers, as insertion sort: the result is ordered and has the same members.
use mathlib.Core.Path.{◌≡◌, refl}
use mathlib.Core.Bool.{Bool, ◌||◌, ◌&&◌, true, false}
use mathlib.Core.List.{List, [], ◌∷◌, reverse, reverse_aux}
use native.Mathlib.Omega.{arith}
use intelligent_rag_framewor.Prelude.Tests.{if◌then◌else◌}
use intelligent_rag_framewor.Prelude.Equality.{◌==◌}
use intelligent_rag_framewor.Prelude.IntDefs.{ℤ, ◌≤ℤ◌, leb_ℤ, leb_ℤ_iff, eqb_ℤ_iff, int_eq}
use intelligent_rag_framewor.Prelude.Lists.{elem, is_empty, all, any}

module _ {ℓ} {A : Type ℓ} (key : A → ℤ) where
  unfoldable pub insert_by : A → List A → List A
  insert_by a [] = a ∷ []
  insert_by a (x ∷ xs) = if leb_ℤ (key a) (key x) then a ∷ x ∷ xs else x ∷ insert_by a xs

  -- `sorted(xs, key=key)`
  unfoldable pub sort_by : List A → List A
  sort_by [] = []
  sort_by (x ∷ xs) = insert_by x (sort_by xs)

-- `sorted(xs)`
unfoldable pub sort : List ℤ → List ℤ
sort = sort_by (λ n. n)

-- The keys rise along the list, from the bound on.
abbrev pub IsSortedFrom {ℓ} : {A : Type ℓ} → (A → ℤ) → ℤ → List A → Type 0
IsSortedFrom key lo [] = Unit
IsSortedFrom key lo (x ∷ xs) = (lo ≤ℤ key x) × IsSortedFrom key (key x) xs

abbrev pub IsSorted {ℓ} : {A : Type ℓ} → (A → ℤ) → List A → Type 0
IsSorted key [] = Unit
IsSorted key (x ∷ xs) = IsSortedFrom key (key x) xs

module _ {ℓ} {A : Type ℓ} (key : A → ℤ) where
  insert_by-IsSortedFrom :
      (lo : ℤ) (a : A) (xs : List A)
      → lo ≤ℤ key a
      → IsSortedFrom key lo xs
      → IsSortedFrom key lo (insert_by key a xs)
  unfolding insert_by
  insert_by-IsSortedFrom lo a [] h s = (h, tt)
  insert_by-IsSortedFrom lo a (x ∷ xs) h s =
      ground (arith, leb_ℤ_iff (key a) (key x), insert_by-IsSortedFrom (key x) a xs)

  insert_by-IsSorted : (a : A) (xs : List A) → IsSorted key xs → IsSorted key (insert_by key a xs)
  unfolding insert_by
  insert_by-IsSorted a [] s = tt
  insert_by-IsSorted a (x ∷ xs) s =
      ground (arith, leb_ℤ_iff (key a) (key x), insert_by-IsSortedFrom (key x) a xs)

  pub sort_by-IsSorted : (xs : List A) → IsSorted key (sort_by key xs)
  unfolding sort_by
  sort_by-IsSorted [] = tt
  sort_by-IsSorted (x ∷ xs) = insert_by-IsSorted x (sort_by key xs) (sort_by-IsSorted xs)

elem-insert_by : (a b : ℤ) (xs : List ℤ) → elem a (insert_by (λ n. n) b xs) ≡ (b == a || elem a xs)
unfolding insert_by elem
elem-insert_by a b [] = refl
elem-insert_by a b (x ∷ xs) = ground (arith, elem-insert_by a b xs)

pub elem-sort : (a : ℤ) (xs : List ℤ) → elem a (sort xs) ≡ elem a xs
unfolding sort sort_by elem
elem-sort a [] = refl
elem-sort a (x ∷ xs) = ground (arith, elem-insert_by a x (sort xs), elem-sort a xs)

is_empty-insert_by {ℓ} :
    {A : Type ℓ} (key : A → ℤ) (a : A) (xs : List A) → is_empty (insert_by key a xs) ≡ false
unfolding insert_by
is_empty-insert_by key a [] = refl
is_empty-insert_by key a (x ∷ xs) = ground arith

pub is_empty-sort_by {ℓ} :
    {A : Type ℓ} (key : A → ℤ) (xs : List A) → is_empty (sort_by key xs) ≡ is_empty xs
unfolding sort_by
is_empty-sort_by key [] = refl
is_empty-sort_by key (x ∷ xs) = is_empty-insert_by key x (sort_by key xs)

pub is_empty-sort : (xs : List ℤ) → is_empty (sort xs) ≡ is_empty xs
unfolding sort
is_empty-sort xs = is_empty-sort_by (λ n. n) xs

pub elem_tail : (i k : ℤ) (ids : List ℤ) → elem k ids ≡ true → elem k (i ∷ ids) ≡ true
unfolding elem
elem_tail i k ids h = ground arith

pub elem_head : (i : ℤ) (ids : List ℤ) → elem i (i ∷ ids) ≡ true
unfolding elem
elem_head i ids = ground (arith, eqb_ℤ_iff i i)

-- The first of a sorted list turned round is a member, and the largest.
abbrev pub IsLargest : ℤ → List ℤ → Type 0
IsLargest i xs = (elem i xs ≡ true) × ((k : ℤ) → elem k xs ≡ true → k ≤ℤ i)

reverse_aux-IsLargest :
    (lo : ℤ) (xs acc : List ℤ) (i : ℤ) (rest : List ℤ)
    → IsSortedFrom (λ n. n) lo xs
    → reverse_aux xs (lo ∷ acc) ≡ i ∷ rest
    → IsLargest i (lo ∷ xs)
unfolding elem
reverse_aux-IsLargest lo [] acc i rest s h =
    (ground (arith, eqb_ℤ_iff lo i), λ k m. ground (arith, eqb_ℤ_iff lo k))
reverse_aux-IsLargest lo (x ∷ xs) acc i rest (le, s) h =
    let (member, largest) = reverse_aux-IsLargest x xs (lo ∷ acc) i rest s h in
    (ground arith, λ k m. ground (arith, eqb_ℤ_iff lo k, eqb_ℤ_iff x x, largest k, largest x))

sorted-IsLargest :
    (ys : List ℤ) (i : ℤ) (rest : List ℤ)
    → IsSorted (λ n. n) ys
    → reverse ys ≡ i ∷ rest
    → IsLargest i ys
sorted-IsLargest [] i rest s h = ground arith
sorted-IsLargest (y ∷ ys) i rest s h = reverse_aux-IsLargest y ys [] i rest s h

pub reverse-IsLargest :
    (xs : List ℤ) (i : ℤ) (rest : List ℤ) → reverse (sort xs) ≡ i ∷ rest → IsLargest i (sort xs)
unfolding sort
reverse-IsLargest xs i rest h = sorted-IsLargest (sort xs) i rest (sort_by-IsSorted (λ n. n) xs) h

module _ {ℓ} {A : Type ℓ} (p : A → Bool) (key : A → ℤ) where
  all-insert_by : (a : A) (xs : List A) → all p (insert_by key a xs) ≡ (p a && all p xs)
  unfolding insert_by all
  all-insert_by a [] = ground arith
  all-insert_by a (x ∷ xs) = ground (arith, all-insert_by a xs)

  pub all-sort_by : (xs : List A) → all p (sort_by key xs) ≡ all p xs
  unfolding sort_by all
  all-sort_by [] = refl
  all-sort_by (x ∷ xs) = ground (arith, all-insert_by x (sort_by key xs), all-sort_by xs)

  any-insert_by : (a : A) (xs : List A) → any p (insert_by key a xs) ≡ (p a || any p xs)
  unfolding insert_by any
  any-insert_by a [] = ground arith
  any-insert_by a (x ∷ xs) = ground (arith, any-insert_by a xs)

  pub any-sort_by : (xs : List A) → any p (sort_by key xs) ≡ any p xs
  unfolding sort_by any
  any-sort_by [] = refl
  any-sort_by (x ∷ xs) = ground (arith, any-insert_by x (sort_by key xs), any-sort_by xs)
