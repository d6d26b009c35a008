-- ===== src/Snapshot/CollectionTrips.antt =====
-- The checks on the collections of a snapshot pass on what `encode_snapshot` writes of a dict
-- (ragcore/_engine/serialization.py).
use intelligent_rag_framewor.Prelude.{
  ◌≡◌, refl, sym, ap, ◌∙◌, ℕ, ℤ, pos, ◌≤ℤ◌, true, false, Result, ok, List, [], ◌∷◌, ◌++◌, map,
  arith, int_eq, string_eq, HasEq, ◌==◌, Every, elem, adjoin_new, elem-append, ltb_ℤ_iff, test_refl,
}
use intelligent_rag_framewor.Prelude.Dict.{Dict, lookup, contains}
use intelligent_rag_framewor.Prelude.Items.{Unique}
use mathlib.Core.List.{append-nil, append_assoc}
use intelligent_rag_framewor.Value.{Value}
use intelligent_rag_framewor.Snapshot.Encode.{entry, ints}
use intelligent_rag_framewor.Snapshot.Collections.{
  collect_ids, max_of, for_each, identity_entries, logical_key, ints_eq,
}

abbrev pub keys_of : {K V : Type 0} → Dict K V → List K
keys_of d = map (λ p. p.0) d

module _ {F : Type 0} where
  pub for_each-map :
      {A : Type 0} (check : Value F → Result (Unit {0})) (g : A → Value F) (xs : List A)
      → Every (λ x. check (g x) ≡ ok tt) xs
      → for_each check (map g xs) ≡ ok tt
  unfolding for_each
  for_each-map check g [] h = refl
  for_each-map check g (x ∷ xs) (own, h) = rw own (for_each-map check g xs h)

pub elem-keys_of : {V : Type 0} (k : ℤ) (d : Dict ℤ V) → elem k (keys_of d) ≡ contains k d
unfolding elem lookup
elem-keys_of k [] = refl
elem-keys_of k ((j, v) ∷ d) = ground (arith, elem-keys_of k d)

module _ {F V : Type 0} (asdict : V → Value F) where
  collect_ids_new :
      (acc : List ℤ) (d : Dict ℤ V)
      → Unique d
      → ((j : ℤ) → contains j d ≡ true → elem j acc ≡ false)
      → collect_ids acc (map (λ p. entry (Value.int p.0) (asdict p.1)) d) ≡ ok (acc ++ keys_of d)
  unfolding collect_ids lookup elem
  collect_ids_new acc [] u h = ap {B = Result (List ℤ)} ok (sym (append-nil acc))
  collect_ids_new acc ((k, v) ∷ d) (absent, u) h =
      let new : elem k acc ≡ false = h k (ground (arith, test_refl k)) in
      rw (new, adjoin_new k acc new)
        (collect_ids_new (acc ++ k ∷ []) d u
            (λ j known. ground (arith, elem-append j acc (k ∷ []), int_eq.test_iff k j, h j))
          ∙ ap {B = Result (List ℤ)} ok (append_assoc acc (k ∷ []) (keys_of d)))

  pub collect_ids_lem :
      (d : Dict ℤ V)
      → Unique d
      → collect_ids [] (map (λ p. entry (Value.int p.0) (asdict p.1)) d) ≡ ok (keys_of d)
  unfolding elem
  collect_ids_lem d u = collect_ids_new [] d u (λ j known. refl)

  module _ {K W : Type 0} ⦃e : HasEq K⦄ (arity : ℕ) (code : K → List ℤ) (write : W → Value F)
      (keys : (k : K) → logical_key {F = F} arity (ints (code k)) ≡ ok (code k))
      (same : (j k : K) → (code j == code k) ≡ (j == k)) where
    identity_entries_new :
        (seen : List (List ℤ)) (d : Dict K W)
        → Unique d
        → ((j : K) → contains j d ≡ true → elem (code j) seen ≡ false)
        → identity_entries arity seen (map (λ p. entry (ints (code p.0)) (write p.1)) d)
          ≡ ok (map (λ p. (code p.0, write p.1)) d)
    unfolding identity_entries lookup elem
    identity_entries_new seen [] u h = refl
    identity_entries_new seen ((k, v) ∷ d) (absent, u) h =
        let new : elem (code k) seen ≡ false = h k (ground (arith, test_refl k)) in
        rw (keys k, new, adjoin_new (code k) seen new)
          (rw
            (identity_entries_new (seen ++ code k ∷ []) d u (λ j known.
              ground
                (arith, elem-append (code j) seen (code k ∷ []), same k j, e.test_iff k j, h j)))
            refl)

    pub identity_entries_lem :
        (d : Dict K W)
        → Unique d
        → identity_entries arity [] (map (λ p. entry (ints (code p.0)) (write p.1)) d)
          ≡ ok (map (λ p. (code p.0, write p.1)) d)
    unfolding elem
    identity_entries_lem d u = identity_entries_new [] d u (λ j known. refl)

pub max_of_below :
    (ids : List ℤ) (m : ℤ) → pos 0 ≤ℤ m → ((k : ℤ) → elem k ids ≡ true → k ≤ℤ m) → max_of ids ≤ℤ m
unfolding max_of elem
max_of_below [] m z h = z
max_of_below (n ∷ []) m z h = h n (ground (arith, test_refl n))
max_of_below (n ∷ i ∷ ids) m z h = ground (
  arith,
  ltb_ℤ_iff n (max_of (i ∷ ids)),
  h n,
  test_refl n,
  max_of_below (i ∷ ids) m z (λ k known. h k (ground arith)),
)
