-- ===== src/Prelude/Items.antt =====
-- `sorted(d.items())` on a Python dict whose keys are distinct, and what the sorting keeps.
use Prim.Native.Nat.{Ordering}
use Prim.Native.String.{String, compare}
use mathlib.Core.Path.{◌≡◌, refl, sym, ◌∙◌}
use mathlib.Core.Bool.{Bool, true, false, ◌&&◌, ◌||◌}
use mathlib.Core.Option.{none, some}
use mathlib.Core.List.{[], ◌∷◌, ◌++◌, append-nil, append_assoc}
use native.Mathlib.Omega.{arith}
use intelligent_rag_framewor.Prelude.Tests.{if◌then◌else◌}
use intelligent_rag_framewor.Prelude.Equality.{HasEq, ◌==◌, string_eq, pair_eq, quad_eq}
use intelligent_rag_framewor.Prelude.IntDefs.{ℤ, leb_ℤ, ltb_ℤ, int_eq}
use intelligent_rag_framewor.Prelude.Dict.{Dict, lookup, contains, insert, lookup-insert}
use intelligent_rag_framewor.Prelude.Listwise.{Every}

-- `a <= b` on keys
pub record HasOrder (K : Type 0) : Type 0 where
  pub at_most : K → K → Bool

instance abbrev pub int_order : HasOrder ℤ
int_order = record { at_most = leb_ℤ }

instance abbrev pub string_order : HasOrder String
string_order = record { at_most = λ a b. elim (compare a b) [ Ordering.gt ↦ false | _ ↦ true ] }

instance abbrev pub pair_order : HasOrder (ℤ × ℤ)
pair_order = record { at_most = λ p q. ltb_ℤ p.0 q.0 || (p.0 == q.0 && leb_ℤ p.1 q.1) }

instance abbrev pub quad_order : HasOrder (ℤ × ℤ × ℤ × ℤ)
quad_order = record {
  at_most = λ p q.
      ltb_ℤ p.0 q.0
      || (p.0 == q.0
          && (ltb_ℤ p.1 q.1 || (p.1 == q.1 && (ltb_ℤ p.2 q.2 || (p.2 == q.2 && leb_ℤ p.3 q.3)))));
}

module _ {K V : Type 0} ⦃o : HasOrder K⦄ where
  unfoldable pub insert_item : K → V → Dict K V → Dict K V
  insert_item k v [] = (k, v) ∷ []
  insert_item k v ((j, w) ∷ d) =
      if o.at_most k j then (k, v) ∷ (j, w) ∷ d else (j, w) ∷ insert_item k v d

  -- `sorted(d.items())`: the keys of a dict are distinct, so no values are compared
  unfoldable pub sorted_items : Dict K V → Dict K V
  sorted_items [] = []
  sorted_items ((k, v) ∷ d) = insert_item k v (sorted_items d)

-- No key stands twice, as in every dict of Python.
abbrev pub Unique : {K V : Type 0} ⦃e : HasEq K⦄ → Dict K V → Type 0
Unique [] = Unit
Unique ((k, v) ∷ d) = (lookup k d ≡ none) × Unique d

module _ {K V : Type 0} ⦃e : HasEq K⦄ where
  pub Unique-insert : (k : K) (v : V) (d : Dict K V) → Unique d → Unique (insert k v d)
  unfolding insert lookup
  Unique-insert k v [] u = (refl, tt)
  Unique-insert k v ((j, w) ∷ d) u =
      ground (arith, Unique-insert k v d, lookup-insert k j v d, e.test_iff k j, e.test_iff j k)

  -- the entries written one after the other
  unfoldable pub add_all : Dict K V → Dict K V → Dict K V
  add_all acc [] = acc
  add_all acc ((k, v) ∷ d) = add_all (insert k v acc) d

  insert_new : (k : K) (v : V) (d : Dict K V) → lookup k d ≡ none → insert k v d ≡ d ++ (k, v) ∷ []
  unfolding insert lookup
  insert_new k v [] h = refl
  insert_new k v ((j, w) ∷ d) h = ground (arith, insert_new k v d)

  -- written after others, entries with keys of their own stay in their order
  add_all_new :
      (acc d : Dict K V)
      → Unique d
      → ((j : K) → contains j d ≡ true → lookup j acc ≡ none)
      → add_all acc d ≡ acc ++ d
  unfolding add_all lookup
  add_all_new acc [] u h = sym (append-nil acc)
  add_all_new acc ((k, v) ∷ d) (absent, u) h =
      let new : lookup k acc ≡ none = h k (ground (arith, e.test_iff k k)) in
      rw (insert_new k v acc new) (
        add_all_new (acc ++ (k, v) ∷ []) d u (λ j known.
          rw (sym (insert_new k v acc new))
            (ground (arith, lookup-insert k j v acc, e.test_iff k j, h j)))
        ∙ append_assoc acc ((k, v) ∷ []) d)

  pub add_all_lem : (d : Dict K V) → Unique d → add_all [] d ≡ d
  unfolding lookup
  add_all_lem d u = add_all_new [] d u (λ j known. refl)

module _ {K V : Type 0} ⦃e : HasEq K⦄ ⦃o : HasOrder K⦄ where
  lookup-insert_item :
      (j k : K) (v : V) (d : Dict K V)
      → lookup k d ≡ none
      → lookup j (insert_item k v d) ≡ (if k == j then some v else lookup j d)
  unfolding insert_item lookup
  lookup-insert_item j k v [] h = refl
  lookup-insert_item j k v ((i, w) ∷ d) h =
      ground (arith, lookup-insert_item j k v d, e.test_iff k j, e.test_iff i k, e.test_iff i j)

  pub lookup-sorted_items :
      (j : K) (d : Dict K V) → Unique d → lookup j (sorted_items d) ≡ lookup j d
  unfolding sorted_items lookup
  lookup-sorted_items j [] u = refl
  lookup-sorted_items j ((k, v) ∷ d) (absent, u) = ground (
    arith,
    lookup-insert_item j k v (sorted_items d),
    lookup-sorted_items j d u,
    lookup-sorted_items k d u,
  )

  Unique-insert_item :
      (k : K) (v : V) (d : Dict K V) → lookup k d ≡ none → Unique d → Unique (insert_item k v d)
  unfolding insert_item lookup
  Unique-insert_item k v [] h u = (refl, tt)
  Unique-insert_item k v ((i, w) ∷ d) h u =
      ground (
        arith,
        Unique-insert_item k v d,
        lookup-insert_item i k v d,
        e.test_iff k i,
        e.test_iff i k,
      )

  pub Unique-sorted_items : (d : Dict K V) → Unique d → Unique (sorted_items d)
  unfolding sorted_items
  Unique-sorted_items [] u = tt
  Unique-sorted_items ((k, v) ∷ d) (absent, u) =
      Unique-insert_item k v (sorted_items d) (lookup-sorted_items k d u ∙ absent)
        (Unique-sorted_items d u)

  pub contains-sorted_items :
      (j : K) (d : Dict K V) → Unique d → contains j (sorted_items d) ≡ contains j d
  contains-sorted_items j d u = ground (arith, lookup-sorted_items j d u)

  -- what the sorting keeps on every entry
  pub Each-sorted_items :
      (P : K → V → Type 0) (d : Dict K V)
      → Unique d
      → ((k : K) (x : V) → lookup k d ≡ some x → P k x)
      → (k : K) (x : V) → lookup k (sorted_items d) ≡ some x
      → P k x
  Each-sorted_items P d u h k x found = h k x (sym (lookup-sorted_items k d u) ∙ found)

module _ {K V : Type 0} ⦃e : HasEq K⦄ where
  -- what holds of every key and its value holds of the members of the list
  pub Every-entries :
      (P : K → V → Type 0) (d : Dict K V)
      → Unique d
      → ((k : K) (x : V) → lookup k d ≡ some x → P k x)
      → Every (λ (p : K × V). P p.0 p.1) d
  unfolding lookup
  Every-entries P [] u h = tt
  Every-entries P ((k, v) ∷ d) (absent, u) h = (
    h k v (ground (arith, e.test_iff k k)),
    Every-entries P d u (λ j x found. h j x (ground (arith, e.test_iff k j))),
  )
