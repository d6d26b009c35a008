-- ===== src/Snapshot/WrittenTrips.antt =====
-- The checks of ragcore/_engine/serialization.py on the list that a snapshot holds of a dict.
use intelligent_rag_framewor.Prelude.{
  ◌≡◌, refl, ◌∙◌, ℤ, ◌≤ℤ◌, true, some, Result, ok, List, [], ◌∷◌, map, arith, Every, int_eq,
  string_eq, pair_eq, quad_eq, HasEq, elem, Option-cases, inl, inr,
}
use intelligent_rag_framewor.Prelude.Dict.{Dict, lookup, contains}
use intelligent_rag_framewor.Prelude.Items.{
  HasOrder, Unique, Unique-sorted_items, Each-sorted_items, Every-entries, sorted_items,
  contains-sorted_items, int_order, string_order, pair_order, quad_order,
}
use intelligent_rag_framewor.Value.{Value, to_list}
use intelligent_rag_framewor.Value.Comparison.{Numbers}
use intelligent_rag_framewor.Spec.Valid.{Stored}
use intelligent_rag_framewor.Snapshot.Records.{values_of}
use intelligent_rag_framewor.Snapshot.Encode.{entry, ints, pair_key, quad_key}
use intelligent_rag_framewor.Snapshot.StoreTrips.{to_list-values_of}
use intelligent_rag_framewor.Snapshot.Collections.{for_each, collect_ids, identity_entries}
use intelligent_rag_framewor.Snapshot.Integrity.{check_in}
use intelligent_rag_framewor.Snapshot.CollectionTrips.{
  keys_of, for_each-map, elem-keys_of, collect_ids_lem, identity_entries_lem,
}
use intelligent_rag_framewor.Snapshot.ReferenceTrips.{pair_key_same, quad_key_same, check_in-int}

pub for_each-sorted :
    {F K V : Type 0} ⦃e : HasEq K⦄ ⦃o : HasOrder K⦄ (check : Value F → Result (Unit {0}))
    (g : K × V → Value F) (d : Dict K V)
    → Unique d
    → ((k : K) (x : V) → lookup k d ≡ some x → check (g (k, x)) ≡ ok tt)
    → for_each check (map g (sorted_items d)) ≡ ok tt
for_each-sorted check g d u h = for_each-map check g (sorted_items d) (
    Every-entries (λ k x. check (g (k, x)) ≡ ok tt) (sorted_items d) (Unique-sorted_items d u)
      (Each-sorted_items (λ k x. check (g (k, x)) ≡ ok tt) d u h))

abbrev pub sorted_keys : {V : Type 0} → Dict ℤ V → List ℤ
sorted_keys d = keys_of (sorted_items d)

elem-sorted_keys :
    {V : Type 0} (k : ℤ) (d : Dict ℤ V) → Unique d → elem k (sorted_keys d) ≡ contains k d
elem-sorted_keys k d u = elem-keys_of k (sorted_items d) ∙ contains-sorted_items k d u

pub known_key :
    {V : Type 0} (k : ℤ) (d : Dict ℤ V)
    → Unique d
    → contains k d ≡ true
    → elem k (sorted_keys d) ≡ true
known_key k d u h = elem-sorted_keys k d u ∙ h

pub collect-written :
    {F V : Type 0} (asdict : V → Value F) (d : Dict ℤ V)
    → Unique d
    → collect_ids []
        (to_list (values_of (map (λ p. entry (Value.int p.0) (asdict p.1)) (sorted_items d))))
      ≡ ok (sorted_keys d)
collect-written asdict d u =
    rw to_list-values_of (collect_ids_lem asdict (sorted_items d) (Unique-sorted_items d u))

-- the ids that are stored are not above the counter
pub stored_below :
    {V : Type 0} (id : V → ℤ) (last : ℤ) (d : Dict ℤ V)
    → Unique d
    → Stored id last d
    → (k : ℤ) → elem k (sorted_keys d) ≡ true
    → k ≤ℤ last
stored_below id last d u h k known = elim (Option-cases (lookup k d)) [
  | inl absent ↦ ground (arith, elem-sorted_keys k d u)
  | inr (x, found) ↦ let (_, _, below) = h k x found in below
]

module _ {F K V : Type 0} ⦃e : HasEq K⦄ ⦃o : HasOrder K⦄ (key : K → Value F)
    (asdict : V → Value F) where
  abbrev pub written_items : Dict K V → List (Value F)
  written_items d = to_list (values_of (map (λ p. entry (key p.0) (asdict p.1)) (sorted_items d)))

  pub for_each-written :
      (check : Value F → Result (Unit {0})) (d : Dict K V)
      → Unique d
      → ((k : K) (x : V) → lookup k d ≡ some x → check (entry (key k) (asdict x)) ≡ ok tt)
      → for_each check (written_items d) ≡ ok tt
  for_each-written check d u h =
      rw to_list-values_of (for_each-sorted check (λ p. entry (key p.0) (asdict p.1)) d u h)

pub pairs-written :
    {F V : Type 0} (asdict : V → Value F) (d : Dict (ℤ × ℤ) V)
    → Unique d
    → identity_entries 2 [] (written_items (λ k. ints (pair_key k)) asdict d)
      ≡ ok (map (λ p. (pair_key p.0, asdict p.1)) (sorted_items d))
pairs-written asdict d u = rw to_list-values_of (
    identity_entries_lem asdict 2 pair_key asdict (λ k. refl) pair_key_same (sorted_items d)
      (Unique-sorted_items d u))

pub quads-written :
    {F V : Type 0} (asdict : V → Value F) (d : Dict (ℤ × ℤ × ℤ × ℤ) V)
    → Unique d
    → identity_entries 4 [] (written_items (λ k. ints (quad_key k)) asdict d)
      ≡ ok (map (λ p. (quad_key p.0, asdict p.1)) (sorted_items d))
quads-written asdict d u = rw to_list-values_of (
    identity_entries_lem asdict 4 quad_key asdict (λ k. refl) quad_key_same (sorted_items d)
      (Unique-sorted_items d u))

module _ (F : Type 0) ⦃nums : Numbers F⦄ where
  targets_known :
      (ids : List ℤ) (d : Dict (ℤ × ℤ × ℤ × ℤ) ℤ)
      → Every (λ p. elem p.1 ids ≡ true) d
      → for_each {F = F}
          (check_in ids)
          (map {A = List ℤ × Value F} (λ t. t.1) (map (λ p. (quad_key p.0, Value.int p.1)) d))
        ≡ ok tt
  unfolding for_each
  targets_known ids [] h = refl
  targets_known ids (p ∷ d) (own, h) = rw (check_in-int F p.1 ids own) (targets_known ids d h)

  pub targets-written :
      (ids : List ℤ) (d : Dict (ℤ × ℤ × ℤ × ℤ) ℤ)
      → Unique d
      → ((k : ℤ × ℤ × ℤ × ℤ) (n : ℤ) → lookup k d ≡ some n → elem n ids ≡ true)
      → for_each {F = F} (check_in ids) (
          map {A = List ℤ × Value F}
            (λ t. t.1)
            (map (λ p. (quad_key p.0, Value.int p.1)) (sorted_items d)))
        ≡ ok tt
  targets-written ids d u h = targets_known ids (sorted_items d) (
      Every-entries (λ _ n. elem n ids ≡ true) (sorted_items d) (Unique-sorted_items d u)
        (Each-sorted_items (λ _ n. elem n ids ≡ true) d u h))
