-- ===== src/Prelude/Dict.antt =====
-- A Python dict: entries in the order of insertion, and a write to a known key stays in place.
use mathlib.Core.Path.{◌≡◌, refl}
use mathlib.Core.Logic.{◌⊎◌}
use mathlib.Core.Bool.{Bool, true, false, ◌||◌}
use mathlib.Core.Option.{Option, none, some}
use mathlib.Core.List.{List, [], ◌∷◌, map}
use native.Mathlib.Omega.{arith}
use intelligent_rag_framewor.Prelude.Tests.{if◌then◌else◌, is_some}
use intelligent_rag_framewor.Prelude.Equality.{HasEq, ◌==◌}

abbrev pub Dict {ℓ κ} : Type ℓ → Type κ → Type (ℓ ⊔ κ)
Dict K V = List (K × V)

abbrev pub values {ℓ κ} : {K : Type ℓ} {V : Type κ} → Dict K V → List V
values d = map (λ e. e.1) d

module _ {ℓ κ} {K : Type ℓ} {V : Type κ} ⦃e : HasEq K⦄ where
  -- `d.get(k)`
  unfoldable pub lookup : K → Dict K V → Option V
  lookup k [] = none
  lookup k ((j, v) ∷ d) = if j == k then some v else lookup k d

  -- `k in d`
  abbrev pub contains : K → Dict K V → Bool
  contains k d = is_some (lookup k d)

  -- `d[k] = v`
  unfoldable pub insert : K → V → Dict K V → Dict K V
  insert k v [] = (k, v) ∷ []
  insert k v ((j, w) ∷ d) = if j == k then (j, v) ∷ d else (j, w) ∷ insert k v d

  pub lookup-insert :
      (k j : K) (v : V) (d : Dict K V)
      → lookup j (insert k v d) ≡ (if k == j then some v else lookup j d)
  unfolding lookup insert
  lookup-insert k j v [] = refl
  lookup-insert k j v ((i, w) ∷ d) =
      ground (arith, e.test_iff k j, e.test_iff i k, e.test_iff i j, lookup-insert k j v d)

  pub lookup-insert_self : (k : K) (v : V) (d : Dict K V) → lookup k (insert k v d) ≡ some v
  lookup-insert_self k v d = ground (arith, lookup-insert k k v d, e.test_iff k k)

  -- `d.get(k, default)`
  unfoldable pub get_or : Dict K V → K → V → V
  get_or d k v = elim (lookup k d) [ none ↦ v | some w ↦ w ]

  -- `d.setdefault(k, v)`, which leaves the value of `get_or d k v` at `k`
  unfoldable pub setdefault : K → V → Dict K V → Dict K V
  setdefault k v d = if contains k d then d else insert k v d

  pub lookup-setdefault :
      (k j : K) (v : V) (d : Dict K V)
      → lookup j (setdefault k v d) ≡ (if k == j then some (get_or d k v) else lookup j d)
  unfolding setdefault get_or
  lookup-setdefault k j v d = ground (arith, e.test_iff k j, lookup-insert k j v d)

  pub setdefault_known : (k : K) (v : V) (d : Dict K V) → contains k d ≡ true → setdefault k v d ≡ d
  unfolding setdefault
  setdefault_known k v d h = ground arith

  pub get_or-setdefault :
      (k j : K) (v : V) (d : Dict K V) → get_or (setdefault k v d) j v ≡ get_or d j v
  unfolding get_or
  get_or-setdefault k j v d = ground (arith, e.test_iff k j, lookup-setdefault k j v d)

  pub contains-insert :
      (k j : K) (v : V) (d : Dict K V) → contains j (insert k v d) ≡ (k == j || contains j d)
  contains-insert k j v d = ground (arith, lookup-insert k j v d)

  -- An entry found after a write is the one written, or was there before.
  pub lookup-insert_cases :
      (k j : K) (v x : V) (d : Dict K V)
      → lookup j (insert k v d) ≡ some x
      → ((j ≡ k) × (x ≡ v)) ⊎ (((k == j) ≡ false) × (lookup j d ≡ some x))
  lookup-insert_cases k j v x d found = ground (arith, lookup-insert k j v d, e.test_iff k j)

  pub get_or-insert :
      (k j : K) (v w : V) (d : Dict K V)
      → get_or (insert k v d) j w ≡ (if k == j then v else get_or d j w)
  unfolding get_or
  get_or-insert k j v w d = ground (arith, lookup-insert k j v d)

  pub contains_mono :
      (k j : K) (v : V) (d : Dict K V) → contains j d ≡ true → contains j (insert k v d) ≡ true
  contains_mono k j v d h = ground (arith, lookup-insert k j v d)

  pub get_or_known : (d : Dict K V) (k : K) (v w : V) → lookup k d ≡ some w → get_or d k v ≡ w
  unfolding get_or
  get_or_known d k v w h = ground arith

  pub get_or_unknown : (d : Dict K V) (k : K) (v : V) → lookup k d ≡ none → get_or d k v ≡ v
  unfolding get_or
  get_or_unknown d k v h = ground arith

  insert-insert : (k : K) (v w : V) (d : Dict K V) → insert k v (insert k w d) ≡ insert k v d
  unfolding insert
  insert-insert k v w [] = ground (arith, e.test_iff k k)
  insert-insert k v w ((j, x) ∷ d) = ground (arith, e.test_iff j k, insert-insert k v w d)

  pub insert-setdefault :
      (k : K) (v w : V) (d : Dict K V) → insert k v (setdefault k w d) ≡ insert k v d
  unfolding setdefault
  insert-setdefault k v w d = ground (arith, insert-insert k v w d)
