-- ===== src/Snapshot/AcceptedParts.antt =====
-- What each check of `_validate_snapshot_restore_integrity` (ragcore/_engine/serialization.py) says of
-- an entry that is restored.
use intelligent_rag_framewor.Prelude.{
  ◌≡◌, refl, ℤ, true, some, ok, List, arith, int_eq, string_eq, elem, and_then_inv,
}
use intelligent_rag_framewor.Floats.{Floats}
use intelligent_rag_framewor.Types.{Claim, Evidence, Gap}
use intelligent_rag_framewor.Value.{Value, Fields}
use intelligent_rag_framewor.Value.Comparison.{Numbers, lookup_field}
use intelligent_rag_framewor.Snapshot.Arguments.{
  subscript, subscript_value, int_argument, arguments, score_argument, sv_from_dict,
  int_argument_or_zero,
}
use intelligent_rag_framewor.Snapshot.Restore.{claim_from_dict, evidence_from_dict, gap_from_dict}
use intelligent_rag_framewor.Snapshot.Stores.{hashable}
use intelligent_rag_framewor.Snapshot.Integrity.{check_in, check_own_id, check_evidence}
use intelligent_rag_framewor.Snapshot.Collections.{ints_eq}
use intelligent_rag_framewor.Snapshot.ReferenceTrips.{value_eq-int, any-int}
use intelligent_rag_framewor.Snapshot.Accepted.{int_argument_inv}

module _ (F : Type 0) ⦃nums : Numbers F⦄ where
  pub check_in_inv :
      (ids : List ℤ) (n : ℤ) → check_in {F = F} ids (Value.int n) ≡ ok tt → elem n ids ≡ true
  unfolding hashable
  check_in_inv ids n h = ground (arith, any-int F n ids)

module _ {F : Type 0} ⦃fl : Floats F⦄ where
  pub evidence_fields :
      (fs : Fields F) (x : Evidence F)
      → evidence_from_dict (Value.mapping fs) ≡ ok x
      → (lookup_field "id" fs ≡ some (Value.int x.id))
        × (lookup_field "claim_id" fs ≡ some (Value.int x.claim_id))
  unfolding evidence_from_dict
  evidence_fields fs x h =
      let (raw, _, a) = and_then_inv (subscript "strength" fs) _ x h in
      let (sv, _, b) = and_then_inv (sv_from_dict raw) _ x a in
      let (_, _, c) = and_then_inv (arguments _ _ fs) _ x b in
      let (id, read_id, d) = and_then_inv (int_argument "id" fs) _ x c in
      let (claim_id, read_claim, e) = and_then_inv (int_argument "claim_id" fs) _ x d in
      let (raw_ref_id, _, f) = and_then_inv (int_argument "raw_ref_id" fs) _ x e in
      let (type, _, g) = and_then_inv (int_argument "type" fs) _ x f in
      let (strength, _, i) = and_then_inv (score_argument sv) _ x g in
      let same_id : x.id ≡ id = ground arith in
      let same_claim : x.claim_id ≡ claim_id = ground arith in
      rw (same_id, same_claim)
        (int_argument_inv "id" fs id read_id, int_argument_inv "claim_id" fs claim_id read_claim)

  pub claim_fields :
      (fs : Fields F) (x : Claim F)
      → claim_from_dict (Value.mapping fs) ≡ ok x
      → lookup_field "id" fs ≡ some (Value.int x.id)
  unfolding claim_from_dict
  claim_fields fs x h =
      let (raw, _, a) = and_then_inv (subscript "base_confidence" fs) _ x h in
      let (sv, _, b) = and_then_inv (sv_from_dict raw) _ x a in
      let (_, _, c) = and_then_inv (arguments _ _ fs) _ x b in
      let (id, read_id, d) = and_then_inv (int_argument "id" fs) _ x c in
      let (n1, _, e) = and_then_inv (int_argument "subject_id" fs) _ x d in
      let (n2, _, f) = and_then_inv (int_argument "type" fs) _ x e in
      let (n3, _, g) = and_then_inv (int_argument "status" fs) _ x f in
      let (n4, _, i) = and_then_inv (int_argument "created_by_rule" fs) _ x g in
      let (n5, _, j) = and_then_inv (int_argument "created_by_rule_version" fs) _ x i in
      let (n6, _, k) = and_then_inv (int_argument "reason_code" fs) _ x j in
      let (base, _, l) = and_then_inv (score_argument sv) _ x k in
      let (flags, _, m) = and_then_inv (int_argument_or_zero "flags" fs) _ x l in
      let same_id : x.id ≡ id = ground arith in rw same_id (int_argument_inv "id" fs id read_id)

  pub gap_fields :
      (fs : Fields F) (x : Gap F)
      → gap_from_dict (Value.mapping fs) ≡ ok x
      → lookup_field "id" fs ≡ some (Value.int x.id)
  unfolding gap_from_dict
  gap_fields fs x h =
      let (raw, _, a) = and_then_inv (subscript "severity" fs) _ x h in
      let (sv, _, b) = and_then_inv (sv_from_dict raw) _ x a in
      let (_, _, c) = and_then_inv (arguments _ _ fs) _ x b in
      let (id, read_id, d) = and_then_inv (int_argument "id" fs) _ x c in
      let (n1, _, e) = and_then_inv (int_argument "claim_id" fs) _ x d in
      let (n2, _, f) = and_then_inv (int_argument "type" fs) _ x e in
      let (n3, _, g) = and_then_inv (int_argument "required_evidence_type" fs) _ x f in
      let (severity, _, i) = and_then_inv (score_argument sv) _ x g in
      let (n4, _, j) = and_then_inv (int_argument "created_by_rule" fs) _ x i in
      let same_id : x.id ≡ id = ground arith in rw same_id (int_argument_inv "id" fs id read_id)

module _ {F : Type 0} ⦃nums : Numbers F⦄ where
  -- A value whose entry passes `check_own_id` is a dict, with the key as its id.
  pub own_value :
      (item value : Value F) (k : ℤ)
      → subscript_value "key" item ≡ ok (Value.int k)
      → subscript_value "value" item ≡ ok value
      → check_own_id item ≡ ok tt
      → (fs : Fields F) × (value ≡ Value.mapping fs)
        × ((n : ℤ) → lookup_field "id" fs ≡ some (Value.int n) → n ≡ k)
  own_value item (Value.mapping fs) k key_read value_read h =
      (fs, refl, λ n found. ground (arith, value_eq-int F n k, int_eq.test_iff n k))
  own_value item Value.null k key_read value_read h = absurd (ground arith)
  own_value item (Value.bool _) k key_read value_read h = absurd (ground arith)
  own_value item (Value.int _) k key_read value_read h = absurd (ground arith)
  own_value item (Value.float _) k key_read value_read h = absurd (ground arith)
  own_value item (Value.str _) k key_read value_read h = absurd (ground arith)
  own_value item (Value.list _) k key_read value_read h = absurd (ground arith)
  own_value item (Value.tuple _) k key_read value_read h = absurd (ground arith)

  pub claim_of :
      (claim_ids : List ℤ) (item value : Value F)
      → subscript_value "value" item ≡ ok value
      → check_evidence claim_ids item ≡ ok tt
      → (fs : Fields F) × (value ≡ Value.mapping fs)
        × ((n : ℤ) → lookup_field "claim_id" fs ≡ some (Value.int n) → elem n claim_ids ≡ true)
  claim_of claim_ids item (Value.mapping fs) value_read h =
      (fs, refl, λ n found. check_in_inv F claim_ids n (ground arith))
  claim_of claim_ids item Value.null value_read h = absurd (ground arith)
  claim_of claim_ids item (Value.bool _) value_read h = absurd (ground arith)
  claim_of claim_ids item (Value.int _) value_read h = absurd (ground arith)
  claim_of claim_ids item (Value.float _) value_read h = absurd (ground arith)
  claim_of claim_ids item (Value.str _) value_read h = absurd (ground arith)
  claim_of claim_ids item (Value.list _) value_read h = absurd (ground arith)
  claim_of claim_ids item (Value.tuple _) value_read h = absurd (ground arith)
