-- ===== src/Prelude/Lists.antt =====
-- Lists under Boolean tests, and lists that stand for Python sets.
use Prim.Native.Nat.{ℕ, suc}
use mathlib.Core.Path.{◌≡◌, refl}
use mathlib.Core.Bool.{Bool, true, false, ◌&&◌, ◌||◌, not}
use mathlib.Core.List.{List, [], ◌∷◌, ◌++◌}
use native.Mathlib.Omega.{arith}
use intelligent_rag_framewor.Prelude.Tests.{if◌then◌else◌}
use intelligent_rag_framewor.Prelude.Equality.{HasEq, ◌==◌}

module _ {ℓ} {A : Type ℓ} where
  abbrev pub length : List A → ℕ
  length [] = 0
  length (x ∷ xs) = suc (length xs)

  unfoldable pub all : (A → Bool) → List A → Bool
  all p [] = true
  all p (x ∷ xs) = p x && all p xs

  unfoldable pub any : (A → Bool) → List A → Bool
  any p [] = false
  any p (x ∷ xs) = p x || any p xs

  unfoldable pub filter_by : (A → Bool) → List A → List A
  filter_by p [] = []
  filter_by p (x ∷ xs) = let rest = filter_by p xs in if p x then x ∷ rest else rest

  -- `not xs`
  abbrev pub is_empty : List A → Bool
  is_empty [] = true
  is_empty (x ∷ xs) = false

module _ {ℓ} {A : Type ℓ} ⦃e : HasEq A⦄ where
  -- `a in xs`
  unfoldable pub elem : A → List A → Bool
  elem a [] = false
  elem a (x ∷ xs) = x == a || elem a xs

  -- `xs.add(a)`
  unfoldable pub adjoin : A → List A → List A
  adjoin a xs = if elem a xs then xs else xs ++ a ∷ []

  -- `xs - ys`
  unfoldable pub difference : List A → List A → List A
  difference xs ys = filter_by (λ x. not (elem x ys)) xs

  pub elem-append : (a : A) (xs ys : List A) → elem a (xs ++ ys) ≡ (elem a xs || elem a ys)
  unfolding elem
  elem-append a [] ys = refl
  elem-append a (x ∷ xs) ys = ground (arith, elem-append a xs ys)

  pub elem-adjoin : (a b : A) (xs : List A) → elem a (adjoin b xs) ≡ (b == a || elem a xs)
  unfolding adjoin elem
  elem-adjoin a b xs = ground (arith, elem-append a xs (b ∷ []), e.test_iff b a)

  pub elem-filter_by :
      (p : A → Bool) (a : A) (xs : List A) → elem a (filter_by p xs) ≡ (p a && elem a xs)
  unfolding filter_by elem
  elem-filter_by p a [] = ground arith
  elem-filter_by p a (x ∷ xs) = ground (arith, elem-filter_by p a xs, e.test_iff x a)

  pub elem-difference :
      (a : A) (xs ys : List A) → elem a (difference xs ys) ≡ (not (elem a ys) && elem a xs)
  unfolding difference
  elem-difference a xs ys = elem-filter_by (λ x. not (elem x ys)) a xs

  pub elem-nil : (a : A) → elem a [] ≡ false
  unfolding elem
  elem-nil a = refl

  pub adjoin_new : (a : A) (xs : List A) → elem a xs ≡ false → adjoin a xs ≡ xs ++ a ∷ []
  unfolding adjoin
  adjoin_new a xs h = ground arith
