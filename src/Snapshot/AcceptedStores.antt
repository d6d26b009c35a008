-- ===== src/Snapshot/AcceptedStores.antt =====
-- What the checks of ragcore/_engine/serialization.py say of the dicts that are restored, dict by dict.
use intelligent_rag_framewor.Prelude.{
  ◌≡◌, refl, sym, ap, ◌∙◌, ℤ, true, Result, ok, List, [], arith, HasEq, int_eq, string_eq, pair_eq,
  quad_eq, elem,
}
use intelligent_rag_framewor.Prelude.Dict.{Dict, lookup, contains}
use intelligent_rag_framewor.Floats.{Floats}
use intelligent_rag_framewor.Types.{Claim, Evidence, Gap}
use intelligent_rag_framewor.Value.{Value}
use intelligent_rag_framewor.Value.Comparison.{Numbers}
use intelligent_rag_framewor.Spec.Valid.{Each}
use intelligent_rag_framewor.Snapshot.Arguments.{subscript_value}
use intelligent_rag_framewor.Snapshot.Restore.{claim_from_dict, evidence_from_dict, gap_from_dict}
use intelligent_rag_framewor.Snapshot.Stores.{int_value, quad_value, int_set, restore_items}
use intelligent_rag_framewor.Snapshot.Collections.{for_each, collect_ids}
use intelligent_rag_framewor.Snapshot.Integrity.{
  check_own_id, check_evidence, check_bucket, check_resolution,
}
use intelligent_rag_framewor.Snapshot.Accepted.{int_value_inv, checked-Each, collected_keys}
use intelligent_rag_framewor.Snapshot.AcceptedMembers.{bucket_known, resolution_known, check_target}
use intelligent_rag_framewor.Snapshot.AcceptedParts.{
  check_in_inv, evidence_fields, claim_fields, gap_fields, own_value, claim_of,
}

module _ {F : Type 0} where
  int_key :
      (item key : Value F) (k : ℤ)
      → subscript_value "key" item ≡ ok key
      → int_value key ≡ ok k
      → subscript_value "key" item ≡ ok (Value.int k)
  int_key item key k h g = h ∙ ap {B = Result (Value F)} ok (int_value_inv key k g)

  -- the keys of a restored dict are the ids that were collected
  pub known_id :
      {V : Type 0} (from_dict : Value F → Result V) (items : List (Value F)) (ids : List ℤ)
      (d : Dict ℤ V)
      → collect_ids [] items ≡ ok ids
      → restore_items int_value from_dict [] items ≡ ok d
      → (k : ℤ) → elem k ids ≡ true
      → contains k d ≡ true
  unfolding elem lookup
  known_id from_dict items ids d collected made k h =
      sym (collected_keys from_dict [] [] items ids d collected made (λ j. refl) k) ∙ h

none_yet : {K V : Type 0} ⦃e : HasEq K⦄ (P : K → V → Type 0) → Each P []
unfolding lookup
none_yet P k x found = absurd (ground arith)

module _ {F : Type 0} ⦃fl : Floats F⦄ ⦃nums : Numbers F⦄ where
  pub claims_own :
      (items : List (Value F)) (d : Dict ℤ (Claim F))
      → for_each check_own_id items ≡ ok tt
      → restore_items int_value claim_from_dict [] items ≡ ok d
      → Each (λ k x. x.id ≡ k) d
  claims_own items d h made =
      checked-Each int_value claim_from_dict check_own_id (λ k x. x.id ≡ k)
        (λ item key value k x key_read k_read value_read x_read own.
          let (fs, same, mine) =
            own_value item value k (int_key item key k key_read k_read) value_read own in
          mine x.id (claim_fields fs x (ap claim_from_dict (sym same) ∙ x_read)))
        [] items d h made (none_yet (λ k x. x.id ≡ k))

  pub evidences_own :
      (items : List (Value F)) (d : Dict ℤ (Evidence F))
      → for_each check_own_id items ≡ ok tt
      → restore_items int_value evidence_from_dict [] items ≡ ok d
      → Each (λ k x. x.id ≡ k) d
  evidences_own items d h made =
      checked-Each int_value evidence_from_dict check_own_id (λ k x. x.id ≡ k)
        (λ item key value k x key_read k_read value_read x_read own.
          let (fs, same, mine) =
            own_value item value k (int_key item key k key_read k_read) value_read own in
          let (id, _) = evidence_fields fs x (ap evidence_from_dict (sym same) ∙ x_read) in
          mine x.id id)
        [] items d h made (none_yet (λ k x. x.id ≡ k))

  pub gaps_own :
      (items : List (Value F)) (d : Dict ℤ (Gap F))
      → for_each check_own_id items ≡ ok tt
      → restore_items int_value gap_from_dict [] items ≡ ok d
      → Each (λ k x. x.id ≡ k) d
  gaps_own items d h made =
      checked-Each int_value gap_from_dict check_own_id (λ k x. x.id ≡ k)
        (λ item key value k x key_read k_read value_read x_read own.
          let (fs, same, mine) =
            own_value item value k (int_key item key k key_read k_read) value_read own in
          mine x.id (gap_fields fs x (ap gap_from_dict (sym same) ∙ x_read)))
        [] items d h made (none_yet (λ k x. x.id ≡ k))

  pub evidences_supported :
      (claim_ids : List ℤ) (items : List (Value F)) (d : Dict ℤ (Evidence F))
      → for_each (check_evidence claim_ids) items ≡ ok tt
      → restore_items int_value evidence_from_dict [] items ≡ ok d
      → Each (λ k x. elem x.claim_id claim_ids ≡ true) d
  evidences_supported claim_ids items d h made =
      checked-Each int_value evidence_from_dict (check_evidence claim_ids)
        (λ k x. elem x.claim_id claim_ids ≡ true)
        (λ item key value k x key_read k_read value_read x_read own.
          let (fs, same, mine) = claim_of claim_ids item value value_read own in
          let (_, claim_id) = evidence_fields fs x (ap evidence_from_dict (sym same) ∙ x_read) in
          mine x.claim_id claim_id)
        [] items d h made (none_yet (λ k x. elem x.claim_id claim_ids ≡ true))

  pub buckets_known :
      (key_ids ids : List ℤ) (items : List (Value F)) (d : Dict ℤ (List ℤ))
      → for_each (check_bucket key_ids ids) items ≡ ok tt
      → restore_items int_value int_set [] items ≡ ok d
      → Each (λ k ns. (elem k key_ids ≡ true) × ((i : ℤ) → elem i ns ≡ true → elem i ids ≡ true)) d
  buckets_known key_ids ids items d h made =
      let P : ℤ → List ℤ → Type 0 =
        λ k ns. (elem k key_ids ≡ true) × ((i : ℤ) → elem i ns ≡ true → elem i ids ≡ true) in
      checked-Each int_value int_set (check_bucket key_ids ids) P
        (λ item key value k ns key_read k_read value_read ns_read own.
          bucket_known key_ids ids item value k ns (int_key item key k key_read k_read) value_read
            ns_read own)
        [] items d h made (none_yet P)

  pub resolutions_known :
      (gap_ids evidence_ids : List ℤ) (items : List (Value F)) (d : Dict ℤ ℤ)
      → for_each (check_resolution gap_ids evidence_ids) items ≡ ok tt
      → restore_items int_value int_value [] items ≡ ok d
      → Each (λ k n. (elem k gap_ids ≡ true) × (elem n evidence_ids ≡ true)) d
  resolutions_known gap_ids evidence_ids items d h made =
      checked-Each int_value int_value (check_resolution gap_ids evidence_ids)
        (λ k n. (elem k gap_ids ≡ true) × (elem n evidence_ids ≡ true))
        (λ item key value k n key_read k_read value_read n_read own.
          resolution_known gap_ids evidence_ids item value k n (int_key item key k key_read k_read)
            value_read n_read own)
        [] items d h made (none_yet (λ k n. (elem k gap_ids ≡ true) × (elem n evidence_ids ≡ true)))

  pub targets_known :
      (gap_ids : List ℤ) (items : List (Value F)) (d : Dict (ℤ × ℤ × ℤ × ℤ) ℤ)
      → for_each (check_target gap_ids) items ≡ ok tt
      → restore_items quad_value int_value [] items ≡ ok d
      → Each (λ k n. elem n gap_ids ≡ true) d
  targets_known gap_ids items d h made =
      checked-Each quad_value int_value (check_target gap_ids) (λ k n. elem n gap_ids ≡ true)
        (λ item key value k n key_read k_read value_read n_read own.
          let same : value ≡ Value.int n = int_value_inv value n n_read in
          check_in_inv F gap_ids n (ground arith))
        [] items d h made (none_yet (λ k n. elem n gap_ids ≡ true))
