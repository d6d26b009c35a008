-- ===== src/Snapshot/AcceptedMembers.antt =====
-- What the checks of sets, resolutions and dedup targets in ragcore/_engine/serialization.py say of the
-- entries that are restored.
use intelligent_rag_framewor.Prelude.{
  ◌≡◌, refl, sym, ℤ, true, Result, ok, List, [], ◌∷◌, arith, int_eq, string_eq, elem, Option-cases,
  Bool-cases, inl, inr, and_then, and_then_inv, raise_if, map, ℕ, elem-nil, value_error, adjoin,
  elem-adjoin,
}
use intelligent_rag_framewor.Value.{Value, elements}
use intelligent_rag_framewor.Value.Comparison.{Numbers, lookup_field}
use intelligent_rag_framewor.Snapshot.Arguments.{subscript_value}
use intelligent_rag_framewor.Snapshot.Stores.{hashable, int_value, int_set, set_of}
use intelligent_rag_framewor.Snapshot.Collections.{for_each}
use intelligent_rag_framewor.Snapshot.Integrity.{check_in, check_bucket, check_resolution}
use intelligent_rag_framewor.Snapshot.Collections.{
  key_and_value, bucket_members, identity_entries, logical_key, ints_eq,
}
use intelligent_rag_framewor.Snapshot.Accepted.{int_value_inv}
use intelligent_rag_framewor.Snapshot.AcceptedParts.{check_in_inv}

module _ {F : Type 0} ⦃nums : Numbers F⦄ where
  -- the members of a set whose values are checked one by one
  members_known :
      (ids acc ns : List ℤ) (vs : List (Value F))
      → set_of acc vs ≡ ok ns
      → for_each (check_in ids) vs ≡ ok tt
      → ((i : ℤ) → elem i acc ≡ true → elem i ids ≡ true)
      → (i : ℤ) → elem i ns ≡ true
      → elem i ids ≡ true
  unfolding set_of for_each
  members_known ids acc ns [] made checked h i known =
      let same : ns ≡ acc = ground arith in h i (rw (sym same) known)
  members_known ids acc ns (Value.int n ∷ vs) made checked h i known =
      let (_, own, rest) =
        and_then_inv (check_in ids (Value.int n)) (λ _. for_each (check_in ids) vs) tt checked in
      members_known ids (adjoin n acc) ns vs made rest
        (λ j there.
          ground (arith, elem-adjoin j n acc, int_eq.test_iff n j, h j, check_in_inv F ids n own))
        i known
  members_known ids acc ns (Value.null ∷ vs) made checked h i known = absurd (ground arith)
  members_known ids acc ns (Value.bool _ ∷ vs) made checked h i known = absurd (ground arith)
  members_known ids acc ns (Value.float _ ∷ vs) made checked h i known = absurd (ground arith)
  members_known ids acc ns (Value.str _ ∷ vs) made checked h i known = absurd (ground arith)
  members_known ids acc ns (Value.list v ∷ vs) made checked h i known =
      absurd (ground (arith, Bool-cases (hashable (Value.list v))))
  members_known ids acc ns (Value.tuple v ∷ vs) made checked h i known =
      absurd (ground (arith, Bool-cases (hashable (Value.tuple v))))
  members_known ids acc ns (Value.mapping v ∷ vs) made checked h i known =
      absurd (ground (arith, Bool-cases (hashable (Value.mapping v))))

  pair_read :
      (item a b : Value F)
      → subscript_value "key" item ≡ ok a
      → subscript_value "value" item ≡ ok b
      → key_and_value item ≡ ok (a, b)
  pair_read (Value.mapping m) a b h g = elim (Option-cases (lookup_field "key" m)) [
    | inl missing ↦ absurd (ground arith)
    | inr (x, found) ↦ elim (Option-cases (lookup_field "value" m)) [
      | inl missing ↦ absurd (ground arith)
      | inr (y, has) ↦ ground arith
    ]
  ]
  pair_read Value.null a b h g = absurd (ground arith)
  pair_read (Value.bool _) a b h g = absurd (ground arith)
  pair_read (Value.int _) a b h g = absurd (ground arith)
  pair_read (Value.float _) a b h g = absurd (ground arith)
  pair_read (Value.str _) a b h g = absurd (ground arith)
  pair_read (Value.list _) a b h g = absurd (ground arith)
  pair_read (Value.tuple _) a b h g = absurd (ground arith)

  bucket_made :
      (ids : List ℤ) (value : Value F) (ns : List ℤ) (vs : List (Value F))
      → int_set value ≡ ok ns
      → bucket_members value ≡ ok vs
      → set_of [] vs ≡ ok ns
  unfolding elements
  bucket_made ids (Value.list ws) ns vs made members = ground arith
  bucket_made ids (Value.tuple ws) ns vs made members = ground arith
  bucket_made ids Value.null ns vs made members = absurd (ground arith)
  bucket_made ids (Value.bool _) ns vs made members = absurd (ground arith)
  bucket_made ids (Value.int _) ns vs made members = absurd (ground arith)
  bucket_made ids (Value.float _) ns vs made members = absurd (ground arith)
  bucket_made ids (Value.str _) ns vs made members = absurd (ground arith)
  bucket_made ids (Value.mapping _) ns vs made members = absurd (ground arith)

  pub bucket_known :
      (key_ids ids : List ℤ) (item value : Value F) (k : ℤ) (ns : List ℤ)
      → subscript_value "key" item ≡ ok (Value.int k)
      → subscript_value "value" item ≡ ok value
      → int_set value ≡ ok ns
      → check_bucket key_ids ids item ≡ ok tt
      → (elem k key_ids ≡ true) × ((i : ℤ) → elem i ns ≡ true → elem i ids ≡ true)
  bucket_known key_ids ids item value k ns key_read value_read made h =
      let (e, read, a) = and_then_inv (key_and_value item) _ tt h in
      let pair : e ≡ (Value.int k, value) =
        ground (arith, pair_read item (Value.int k) value key_read value_read) in
      let (_, own, b) = and_then_inv (check_in key_ids e.0) _ tt a in
      let (vs, members, c) = and_then_inv (bucket_members e.1) _ tt b in
      (
        check_in_inv F key_ids k (ground arith),
        members_known ids [] ns vs (bucket_made ids value ns vs made (ground arith)) c
            (λ i known. ground (arith, elem-nil i)),
      )

  pub resolution_known :
      (gap_ids evidence_ids : List ℤ) (item value : Value F) (k n : ℤ)
      → subscript_value "key" item ≡ ok (Value.int k)
      → subscript_value "value" item ≡ ok value
      → int_value value ≡ ok n
      → check_resolution gap_ids evidence_ids item ≡ ok tt
      → (elem k gap_ids ≡ true) × (elem n evidence_ids ≡ true)
  resolution_known gap_ids evidence_ids item value k n key_read value_read made h =
      let (e, read, a) = and_then_inv (key_and_value item) _ tt h in
      let pair : e ≡ (Value.int k, value) =
        ground (arith, pair_read item (Value.int k) value key_read value_read) in
      let (_, own, b) = and_then_inv (check_in gap_ids e.0) _ tt a in
      let same : value ≡ Value.int n = int_value_inv value n made in
      (check_in_inv F gap_ids k (ground arith), check_in_inv F evidence_ids n (ground arith))

  -- the check of the targets of the dedup index, entry by entry
  abbrev pub check_target : List ℤ → Value F → Result (Unit {0})
  check_target ids item = and_then (subscript_value "value" item) (check_in ids)

  key_and_value_inv :
      (item a b : Value F) → key_and_value item ≡ ok (a, b) → subscript_value "value" item ≡ ok b
  key_and_value_inv (Value.mapping m) a b h = elim (Option-cases (lookup_field "key" m)) [
    | inl missing ↦ absurd (ground arith)
    | inr (x, found) ↦ elim (Option-cases (lookup_field "value" m)) [
      | inl missing ↦ absurd (ground arith)
      | inr (y, has) ↦ ground arith
    ]
  ]
  key_and_value_inv Value.null a b h = absurd (ground arith)
  key_and_value_inv (Value.bool _) a b h = absurd (ground arith)
  key_and_value_inv (Value.int _) a b h = absurd (ground arith)
  key_and_value_inv (Value.float _) a b h = absurd (ground arith)
  key_and_value_inv (Value.str _) a b h = absurd (ground arith)
  key_and_value_inv (Value.list _) a b h = absurd (ground arith)
  key_and_value_inv (Value.tuple _) a b h = absurd (ground arith)

  pub targets_checked :
      (arity : ℕ) (ids : List ℤ) (seen : List (List ℤ)) (items : List (Value F))
      (targets : List (List ℤ × Value F))
      → identity_entries arity seen items ≡ ok targets
      → for_each (check_in ids) (map {A = List ℤ × Value F} (λ t. t.1) targets) ≡ ok tt
      → for_each (check_target ids) items ≡ ok tt
  unfolding identity_entries for_each
  targets_checked arity ids seen [] targets h g = refl
  targets_checked arity ids seen (item ∷ items) targets h g =
      let (e, read, a) = and_then_inv (key_and_value item) _ targets h in
      let (logical, key, b) = and_then_inv (logical_key arity e.0) _ targets a in
      let (_, new, c) = and_then_inv (raise_if (elem logical seen) value_error) _ targets b in
      let (rest, more, d) =
        and_then_inv (identity_entries arity (adjoin logical seen) items) _ targets c in
      let same : targets ≡ (logical, e.1) ∷ rest = ground arith in
      let checked : for_each (check_in ids) (e.1 ∷ map {A = List ℤ × Value F} (λ t. t.1) rest)
          ≡ ok tt =
        coe 0 1
          (i. for_each (check_in ids) (map {A = List ℤ × Value F} (λ t. t.1) (same i)) ≡ ok tt) g in
      let (_, own, later) =
        and_then_inv (check_in ids e.1)
          (λ _. for_each (check_in ids) (map {A = List ℤ × Value F} (λ t. t.1) rest)) tt checked in
      rw (key_and_value_inv item e.0 e.1 read, own)
        (targets_checked arity ids (adjoin logical seen) items rest more later)
