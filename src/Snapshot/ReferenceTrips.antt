-- ===== src/Snapshot/ReferenceTrips.antt =====
-- The checks on references pass on what `encode_snapshot` writes of known ids
-- (ragcore/_engine/serialization.py).
use intelligent_rag_framewor.Prelude.{
  ◌≡◌, refl, sym, ◌∙◌, ℤ, pos, ◌≤ℤ◌, String, true, none, some, ok, List, [], ◌∷◌, map, arith,
  int_eq, string_eq, ◌==◌, elem, ltb_ℤ_iff, any, test_refl, sort, elem-sort, pair_eq, quad_eq,
}
use intelligent_rag_framewor.Prelude.Dict.{Dict, lookup, get_or}
use intelligent_rag_framewor.Value.{Value}
use intelligent_rag_framewor.Value.Comparison.{Numbers, lookup_field, value_eq}
use intelligent_rag_framewor.Snapshot.StoreTrips.{to_list-values_of}
use intelligent_rag_framewor.Snapshot.Encode.{
  entry, ints, int_values, pair_key, quad_key, counters_to_fields,
}
use intelligent_rag_framewor.Snapshot.Stores.{hashable}
use intelligent_rag_framewor.Snapshot.Collections.{max_of, for_each, ints_eq}
use intelligent_rag_framewor.Snapshot.Integrity.{
  check_in, check_bucket, check_counter, index_of, find_bucket, check_registered, check_resolved,
}
use intelligent_rag_framewor.Snapshot.CollectionTrips.{max_of_below}

pub pair_key_same : (j k : ℤ × ℤ) → (pair_key j == pair_key k) ≡ (j == k)
pair_key_same (a, b) (c, d) = ground arith

pub quad_key_same : (j k : ℤ × ℤ × ℤ × ℤ) → (quad_key j == quad_key k) ≡ (j == k)
quad_key_same (a, b, c, d) (a', b', c', d') = ground arith

module _ (F : Type 0) ⦃nums : Numbers F⦄ where
  pub value_eq-int : (a b : ℤ) → value_eq {F = F} (Value.int a) (Value.int b) ≡ (a == b)
  unfolding value_eq
  value_eq-int a b = nums.equal_int a b

  pub any-int :
      (n : ℤ) (ids : List ℤ)
      → any (λ m. value_eq {F = F} (Value.int n) (Value.int m)) ids ≡ elem n ids
  unfolding any elem
  any-int n [] = refl
  any-int n (m ∷ ids) =
      ground (arith, any-int n ids, value_eq-int n m, int_eq.test_iff n m, int_eq.test_iff m n)

  -- the same, in a list of values
  any-int_values :
      (n : ℤ) (ns : List ℤ)
      → any (λ w. value_eq {F = F} (Value.int n) w) (int_values ns) ≡ elem n ns
  unfolding any elem
  any-int_values n [] = refl
  any-int_values n (m ∷ ns) =
      ground
        (arith, any-int_values n ns, value_eq-int n m, int_eq.test_iff n m, int_eq.test_iff m n)

  pub check_in-int :
      (n : ℤ) (ids : List ℤ) → elem n ids ≡ true → check_in {F = F} ids (Value.int n) ≡ ok tt
  unfolding hashable
  check_in-int n ids h = rw (any-int n ids, h) refl

  pub check_in-ints :
      (ns ids : List ℤ)
      → ((n : ℤ) → elem n ns ≡ true → elem n ids ≡ true)
      → for_each {F = F} (check_in ids) (int_values ns) ≡ ok tt
  unfolding for_each elem
  check_in-ints [] ids h = refl
  check_in-ints (n ∷ ns) ids h =
      rw (check_in-int n ids (h n (ground (arith, test_refl n))))
        (check_in-ints ns ids (λ k known. h k (ground arith)))

  pub check_bucket-ints :
      (c : ℤ) (ns key_ids member_ids : List ℤ)
      → elem c key_ids ≡ true
      → ((n : ℤ) → elem n ns ≡ true → elem n member_ids ≡ true)
      → check_bucket {F = F} key_ids member_ids (entry (Value.int c) (ints ns)) ≡ ok tt
  check_bucket-ints c ns key_ids member_ids h g =
      rw (check_in-int c key_ids h, to_list-values_of) (check_in-ints ns member_ids g)

  abbrev pub written : Dict ℤ (List ℤ) → List (Value F × List (Value F))
  written d = map (λ p. (Value.int p.0, int_values (sort p.1))) d

  pub index_of-entries :
      (d : Dict ℤ (List ℤ))
      → index_of (map (λ p. entry (Value.int p.0) (ints (sort p.1))) d) ≡ ok (written d)
  unfolding index_of
  index_of-entries [] = refl
  index_of-entries (p ∷ d) = rw to_list-values_of (rw (index_of-entries d) refl)

  find_bucket-written :
      (c : ℤ) (es : List ℤ) (d : Dict ℤ (List ℤ))
      → lookup c d ≡ some es
      → find_bucket (Value.int c) (written d) ≡ some (int_values (sort es))
  unfolding find_bucket lookup
  find_bucket-written c es [] h = ground arith
  find_bucket-written c es ((k, ns) ∷ d) h =
      ground (arith, value_eq-int k c, find_bucket-written c es d)

  registered-ints :
      (ns es : List ℤ)
      → ((n : ℤ) → elem n ns ≡ true → elem n es ≡ true)
      → for_each {F = F} (check_registered (int_values es)) (int_values ns) ≡ ok tt
  unfolding for_each elem hashable
  registered-ints [] es h = refl
  registered-ints (n ∷ ns) es h =
      rw (any-int_values n es, h n (ground (arith, test_refl n)))
        (registered-ints ns es (λ k known. h k (ground arith)))

  pub check_resolved-ints :
      (c : ℤ) (ns es claim_ids : List ℤ) (d : Dict ℤ (List ℤ))
      → elem c claim_ids ≡ true
      → lookup c d ≡ some es
      → ((n : ℤ) → elem n ns ≡ true → elem n es ≡ true)
      → check_resolved claim_ids (written d) (entry (Value.int c) (ints (sort ns))) ≡ ok tt
  check_resolved-ints c ns es claim_ids d h found sub =
      rw (check_in-int c claim_ids h, to_list-values_of, find_bucket-written c es d found)
        (registered-ints (sort ns) (sort es)
          (λ n known. elem-sort n es ∙ sub n (sym (elem-sort n ns) ∙ known)))

  lookup-counters :
      (kind : String) (d : Dict String ℤ)
      → lookup_field kind (counters_to_fields {F = F} d)
        ≡ elim (lookup kind d) [ none ↦ none | some n ↦ some (Value.int n) ]
  unfolding lookup
  lookup-counters kind [] = refl
  lookup-counters kind ((j, n) ∷ d) = ground (arith, lookup-counters kind d)

  pub check_counter-entries :
      (kind : String) (ids : List ℤ) (d : Dict String ℤ)
      → pos 0 ≤ℤ get_or d kind (pos 0)
      → ((k : ℤ) → elem k ids ≡ true → k ≤ℤ get_or d kind (pos 0))
      → check_counter (counters_to_fields {F = F} d) kind ids ≡ ok tt
  unfolding get_or
  check_counter-entries kind ids d z h = ground (
    arith,
    lookup-counters kind d,
    max_of_below ids (get_or d kind (pos 0)) z h,
    ltb_ℤ_iff (pos 0) (max_of ids),
    ltb_ℤ_iff (get_or d kind (pos 0)) (pos 0),
    ltb_ℤ_iff (get_or d kind (pos 0)) (max_of ids),
  )
