-- ===== src/Snapshot/StoreTrips.antt =====
-- A dict comes back from the list that a snapshot holds of it (ragcore/_engine/serialization.py).
use intelligent_rag_framewor.Prelude.{
  ◌≡◌, refl, ap, ◌∙◌, ℤ, String, none, some, Result, ok, List, [], ◌∷◌, map, arith, int_eq,
  string_eq, pair_eq, quad_eq, HasEq, Every, adjoin,
}
use intelligent_rag_framewor.Prelude.Dict.{Dict, lookup, insert}
use intelligent_rag_framewor.Prelude.Items.{
  add_all, Unique, add_all_lem, Every-entries, Unique-sorted_items, Each-sorted_items, HasOrder,
  sorted_items,
}
use intelligent_rag_framewor.Types.{ClaimLifecycleEvent}
use intelligent_rag_framewor.Engine.HintEvidence.{update_set}
use intelligent_rag_framewor.Value.{Value, elements, to_list}
use intelligent_rag_framewor.Snapshot.Records.{values_of, list_of, event_to_dict}
use intelligent_rag_framewor.Snapshot.Encode.{
  entry, int_values, ints, counters_to_fields, serialize_dict,
}
use intelligent_rag_framewor.Snapshot.Stores.{
  restore_items, restore, set_of, int_set, restore_each, restore_counters, events_from_list,
}
use intelligent_rag_framewor.Snapshot.RecordTrips.{event_trip}
use intelligent_rag_framewor.Snapshot.Restore.{event_from_dict}

module _ {F : Type 0} where
  pub to_list-values_of : (vs : List (Value F)) → to_list (values_of vs) ≡ vs
  to_list-values_of [] = refl
  to_list-values_of (v ∷ vs) = ground (arith, to_list-values_of vs)

module _ (F : Type 0) where
  set_of-ints : (acc ns : List ℤ) → set_of acc (int_values {F = F} ns) ≡ ok (update_set acc ns)
  unfolding set_of update_set
  set_of-ints acc [] = refl
  set_of-ints acc (n ∷ ns) = set_of-ints (adjoin n acc) ns

  pub int_set-ints : (ns : List ℤ) → int_set (ints {F = F} ns) ≡ ok (update_set [] ns)
  unfolding elements
  int_set-ints ns = rw to_list-values_of (set_of-ints [] ns)

module _ {F : Type 0} where
  pub restore_each-map :
      {V : Type 0} (from_dict : Value F → Result V) (asdict : V → Value F) (xs : List V)
      → ((x : V) → from_dict (asdict x) ≡ ok x)
      → restore_each from_dict (map asdict xs) ≡ ok xs
  unfolding restore_each
  restore_each-map from_dict asdict [] h = refl
  restore_each-map from_dict asdict (x ∷ xs) h =
      ground (arith, h x, restore_each-map from_dict asdict xs h)

module _ (F : Type 0) where
  pub events_trip :
      (xs : List ClaimLifecycleEvent)
      → events_from_list (list_of {F = F} (map event_to_dict xs)) ≡ ok xs
  unfolding elements
  events_trip xs =
      rw to_list-values_of (restore_each-map event_from_dict event_to_dict xs (event_trip F))

  restore_counters_entries :
      (acc d : Dict String ℤ)
      → restore_counters acc (counters_to_fields {F = F} d) ≡ ok (add_all acc d)
  unfolding restore_counters add_all
  restore_counters_entries acc [] = refl
  restore_counters_entries acc ((k, n) ∷ d) = restore_counters_entries (insert k n acc) d

  pub counters_trip :
      (d : Dict String ℤ) → Unique d → restore_counters [] (counters_to_fields {F = F} d) ≡ ok d
  counters_trip d u =
      restore_counters_entries [] d ∙ ap {B = Result (Dict String ℤ)} ok (add_all_lem d u)

module _ {F : Type 0} where
  module _ {K V W : Type 0} ⦃e : HasEq K⦄ (key : K → Value F) (key_of : Value F → Result K)
      (asdict : V → Value F) (from_dict : Value F → Result W) (g : V → W)
      (keys : (k : K) → key_of (key k) ≡ ok k) where
    abbrev mapped : Dict K V → Dict K W
    mapped d = map (λ p. (p.0, g p.1)) d

    restore_items_entries :
        (acc : Dict K W) (d : Dict K V)
        → Every (λ (p : K × V). from_dict (asdict p.1) ≡ ok (g p.1)) d
        → restore_items key_of from_dict acc (map (λ p. entry (key p.0) (asdict p.1)) d)
          ≡ ok (add_all acc (mapped d))
    unfolding restore_items add_all
    restore_items_entries acc [] h = refl
    restore_items_entries acc ((k, v) ∷ d) (own, h) =
        rw (keys k, own) (restore_items_entries (insert k (g v) acc) d h)

    lookup-mapped : (k : K) (d : Dict K V) → lookup k d ≡ none → lookup k (mapped d) ≡ none
    unfolding lookup
    lookup-mapped k [] h = refl
    lookup-mapped k ((j, v) ∷ d) h = ground (arith, lookup-mapped k d)

    Unique-mapped : (d : Dict K V) → Unique d → Unique (mapped d)
    Unique-mapped [] u = tt
    Unique-mapped ((k, v) ∷ d) (absent, u) = (lookup-mapped k d absent, Unique-mapped d u)

    -- The restored dict has the entries of the other in the order of their keys.
    pub restore-serialize :
        ⦃o : HasOrder K⦄ (d : Dict K V)
        → Unique d
        → ((k : K) (x : V) → lookup k d ≡ some x → from_dict (asdict x) ≡ ok (g x))
        → restore key_of from_dict (serialize_dict key asdict d) ≡ ok (mapped (sorted_items d))
    unfolding elements
    restore-serialize d u h =
        let sorted = sorted_items d in
        let su : Unique sorted = Unique-sorted_items d u in
        rw to_list-values_of (
          restore_items_entries [] sorted (
            Every-entries (λ k x. from_dict (asdict x) ≡ ok (g x)) sorted su
              (Each-sorted_items (λ k x. from_dict (asdict x) ≡ ok (g x)) d u h))
          ∙ ap {B = Result (Dict K W)} ok (add_all_lem (mapped sorted) (Unique-mapped sorted su)))

map_same : {K V : Type 0} (d : Dict K V) → map (λ p. (p.0, p.1)) d ≡ d
map_same [] = refl
map_same (p ∷ d) = ground (arith, map_same d)

module _ {F K V : Type 0} ⦃e : HasEq K⦄ ⦃o : HasOrder K⦄ (key : K → Value F)
    (key_of : Value F → Result K) (asdict : V → Value F) (from_dict : Value F → Result V)
    (keys : (k : K) → key_of (key k) ≡ ok k) where
  pub restore-serialize_same :
      (d : Dict K V)
      → Unique d
      → ((k : K) (x : V) → lookup k d ≡ some x → from_dict (asdict x) ≡ ok x)
      → restore key_of from_dict (serialize_dict key asdict d) ≡ ok (sorted_items d)
  restore-serialize_same d u h =
      restore-serialize key key_of asdict from_dict (λ x. x) keys d u h
      ∙ ap {B = Result (Dict K V)} ok (map_same (sorted_items d))
