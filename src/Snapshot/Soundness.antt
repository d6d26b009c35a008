-- ===== src/Snapshot/Soundness.antt =====
-- An engine that `from_snapshot` (ragcore/_engine/snapshot.py) returns, whatever the snapshot was.
use intelligent_rag_framewor.Prelude.{
  ◌≡◌, refl, ℤ, pos, eqb_ℤ_iff, ◌∷◌, String, true, not, Result, ok, raise, List, [], arith, HasEq,
  int_eq, string_eq, pair_eq, quad_eq, elem, and_then, and_then_inv, Error, raise_if, value_error,
  all,
}
use intelligent_rag_framewor.Prelude.Dict.{Dict, lookup, values, contains}
use intelligent_rag_framewor.Floats.{Floats}
use intelligent_rag_framewor.Types.{Claim}
use intelligent_rag_framewor.Types.ClaimStatus
use intelligent_rag_framewor.Value.{Value, Fields}
use intelligent_rag_framewor.Value.Comparison.{Numbers}
use intelligent_rag_framewor.Engine.State.{Engine, init}
use intelligent_rag_framewor.Engine.Crud.{validate_claim_status_admission}
use intelligent_rag_framewor.Spec.{IsStatus}
use intelligent_rag_framewor.Spec.Valid.{Each}
use intelligent_rag_framewor.Snapshot.{from_snapshot, state_view, install, admit_claims}
use intelligent_rag_framewor.Snapshot.Encode.{DecodedEngineState}
use intelligent_rag_framewor.Snapshot.Arguments.{subscript}
use intelligent_rag_framewor.Snapshot.Restore.{claim_from_dict, evidence_from_dict, gap_from_dict}
use intelligent_rag_framewor.Snapshot.Stores.{
  int_value, quad_value, int_set, restore, restore_items,
}
use intelligent_rag_framewor.Snapshot.Collections.{
  has, list_at, for_each, collect_ids, collect_id_set, snapshot_required_keys,
}
use intelligent_rag_framewor.Snapshot.Integrity.{
  IdSets, collect_id_sets, check_references, check_own_id, check_evidence, check_bucket,
  check_resolution, validate_snapshot_restore_integrity,
}
use intelligent_rag_framewor.Snapshot.Decode.{
  migrate_snapshot_to_current, reconstruct, no_key_error, validate_and_decode_snapshot,
}
use intelligent_rag_framewor.Snapshot.Accepted.{list_at-restore}
use intelligent_rag_framewor.Snapshot.AcceptedMembers.{check_target}
use intelligent_rag_framewor.Snapshot.AcceptedStores.{
  known_id, claims_own, evidences_own, gaps_own, evidences_supported, buckets_known,
  resolutions_known, targets_known,
}
use intelligent_rag_framewor.Snapshot.References.{HasReferences, Each-EachIn}
use intelligent_rag_framewor.Snapshot.ReferenceChecks.{
  Checked, collected_lists, check_references-Checked,
}
use intelligent_rag_framewor.Snapshot.Restored.{Restored, reconstruct-Restored}

admission-IsStatus : (n : ℤ) → validate_claim_status_admission n ≡ ok tt → IsStatus n
unfolding validate_claim_status_admission
admission-IsStatus n h = ground (
  arith,
  eqb_ℤ_iff n ClaimStatus.candidate,
  eqb_ℤ_iff n ClaimStatus.confirmed,
  eqb_ℤ_iff n ClaimStatus.refuted,
  eqb_ℤ_iff n ClaimStatus.disputed,
)

admit_claims-IsStatus :
    {F : Type 0} (d : Dict ℤ (Claim F))
    → admit_claims (values d) ≡ ok tt
    → Each (λ _ c. IsStatus c.status) d
unfolding admit_claims lookup
admit_claims-IsStatus [] h k c found = absurd (ground arith)
admit_claims-IsStatus ((j, x) ∷ d) h k c found =
    let (_, own, rest) =
      and_then_inv (validate_claim_status_admission x.status) (λ _. admit_claims (values d)) tt h in
    ground (arith, admission-IsStatus x.status own, admit_claims-IsStatus d rest k c)

no_key_error_inv : {A : Type 0} (r : Result A) (x : A) → no_key_error r ≡ ok x → r ≡ ok x
no_key_error_inv (ok y) x h = h
no_key_error_inv (raise Error.key_error) x h = absurd (ground arith)
no_key_error_inv (raise Error.value_error) x h = absurd (ground arith)
no_key_error_inv (raise Error.type_error) x h = absurd (ground arith)
no_key_error_inv (raise Error.assertion_error) x h = absurd (ground arith)
no_key_error_inv (raise Error.overflow_error) x h = absurd (ground arith)
no_key_error_inv (raise Error.untyped) x h = absurd (ground arith)

module _ {F : Type 0} where
  known :
      {V : Type 0} (snapshot : Fields F) (name : String) (from_dict : Value F → Result V)
      (ids : List ℤ) (d : Dict ℤ V)
      → collect_id_set snapshot name ≡ ok ids
      → and_then (subscript name snapshot) (restore int_value from_dict) ≡ ok d
      → (k : ℤ) → elem k ids ≡ true
      → contains k d ≡ true
  known snapshot name from_dict ids d collected made =
      let (items, listed, taken) =
        and_then_inv (list_at snapshot name) (collect_ids []) ids collected in
      known_id from_dict items ids d taken
        (list_at-restore snapshot name int_value from_dict items d listed made)

module _ {F : Type 0} ⦃fl : Floats F⦄ ⦃nums : Numbers F⦄ where
  -- what the check of the ids of a collection gives to the restored dicts
  restored_checked :
      {K V : Type 0} ⦃e : HasEq K⦄ (snapshot : Fields F) (name : String)
      (key_of : Value F → Result K) (from_dict : Value F → Result V)
      (check : Value F → Result (Unit {0})) (d : Dict K V) (P : Type 0)
      → and_then (list_at snapshot name) (for_each check) ≡ ok tt
      → and_then (subscript name snapshot) (restore key_of from_dict) ≡ ok d
      → ((items : List (Value F))
          → for_each check items ≡ ok tt
          → restore_items key_of from_dict [] items ≡ ok d
          → P)
      → P
  restored_checked snapshot name key_of from_dict check d P checked made use_it =
      let (items, listed, each) =
        and_then_inv (list_at snapshot name) (for_each check) tt checked in
      use_it items each (list_at-restore snapshot name key_of from_dict items d listed made)

  decoded-HasReferences :
      (snapshot : Fields F) (ids : IdSets) (t : DecodedEngineState F)
      → collect_id_sets snapshot ≡ ok ids
      → Checked snapshot ids
      → Restored snapshot t
      → HasReferences t
  decoded-HasReferences snapshot ids t collected c r =
      let (claim_ids, evidence_ids, gap_ids) = collected_lists snapshot ids collected in
      let claim_known : (k : ℤ) → elem k ids.claims ≡ true → contains k t.claims ≡ true =
        known snapshot "claims" claim_from_dict ids.claims t.claims claim_ids r.claims in
      let evidence_known : (k : ℤ) → elem k ids.evidences ≡ true → contains k t.evidences ≡ true =
        known snapshot "evidences" evidence_from_dict ids.evidences t.evidences evidence_ids
          r.evidences in
      let gap_known : (k : ℤ) → elem k ids.gaps ≡ true → contains k t.gaps ≡ true =
        known snapshot "gaps" gap_from_dict ids.gaps t.gaps gap_ids r.gaps in
      let supported : Each (λ k x. elem x.claim_id ids.claims ≡ true) t.evidences =
        restored_checked snapshot "evidences" int_value evidence_from_dict
          (check_evidence ids.claims) t.evidences _ c.supported r.evidences
          (λ items. evidences_supported ids.claims items t.evidences) in
      let contradicted : Each
          (λ k ns.
            (elem k ids.claims ≡ true) × ((i : ℤ) → elem i ns ≡ true → elem i ids.evidences ≡ true))
          t.contradictions =
        restored_checked snapshot "contradictions" int_value int_set
          (check_bucket ids.claims ids.evidences) t.contradictions _ c.contradictions
          r.contradictions
          (λ items. buckets_known ids.claims ids.evidences items t.contradictions) in
      let referring : Each
          (λ k ns.
            (elem k ids.claims ≡ true) × ((i : ℤ) → elem i ns ≡ true → elem i ids.gaps ≡ true))
          t.claim_gap_refs =
        restored_checked snapshot "claim_gap_refs" int_value int_set
          (check_bucket ids.claims ids.gaps) t.claim_gap_refs _ c.refs r.refs
          (λ items. buckets_known ids.claims ids.gaps items t.claim_gap_refs) in
      let resolving : Each (λ k n. (elem k ids.gaps ≡ true) × (elem n ids.evidences ≡ true))
          t.gap_resolutions =
        restored_checked snapshot "gap_resolutions" int_value int_value
          (check_resolution ids.gaps ids.evidences) t.gap_resolutions _ c.resolutions r.resolutions
          (λ items. resolutions_known ids.gaps ids.evidences items t.gap_resolutions) in
      let indexed : Each (λ k n. elem n ids.gaps ≡ true) t.gap_dedup_index =
        restored_checked snapshot "gap_dedup_index" quad_value int_value (check_target ids.gaps)
          t.gap_dedup_index _ c.targets r.index
          (λ items. targets_known ids.gaps items t.gap_dedup_index) in
      record {
        claim_ids =
            restored_checked snapshot "claims" int_value claim_from_dict check_own_id t.claims _
              c.claims r.claims (λ items. claims_own items t.claims);
        evidence_ids =
            restored_checked snapshot "evidences" int_value evidence_from_dict check_own_id
              t.evidences _ c.evidences r.evidences (λ items. evidences_own items t.evidences);
        gap_ids =
            restored_checked snapshot "gaps" int_value gap_from_dict check_own_id t.gaps _ c.gaps
              r.gaps (λ items. gaps_own items t.gaps);
        supported = λ k x found. claim_known x.claim_id (supported k x found);
        contradicted = λ k ns found. claim_known k ((contradicted k ns found).0);
        contradicting =
            Each-EachIn (λ i. contains i t.evidences ≡ true) t.contradictions
              (λ k ns found i there. evidence_known i ((contradicted k ns found).1 i there));
        referring = λ k ns found. claim_known k ((referring k ns found).0);
        referred =
            Each-EachIn (λ i. contains i t.gaps ≡ true) t.claim_gap_refs
              (λ k ns found i there. gap_known i ((referring k ns found).1 i there));
        resolved_gaps = λ k n found. gap_known k ((resolving k n found).0);
        resolving = λ k n found. evidence_known n ((resolving k n found).1);
        indexed = λ k n found. gap_known n (indexed k n found);
      }

  validated-HasReferences :
      (v : Value F) (t : DecodedEngineState F)
      → validate_and_decode_snapshot v ≡ ok t
      → HasReferences t
  unfolding validate_and_decode_snapshot validate_snapshot_restore_integrity
  validated-HasReferences (Value.mapping fs) t h =
      let (snapshot, _, h1) = and_then_inv (migrate_snapshot_to_current fs) _ t h in
      let (_, validated, h2) = and_then_inv (validate_snapshot_restore_integrity snapshot) _ t h1 in
      let (_, _, v1) =
        and_then_inv (raise_if (not (all (λ k. has k snapshot) snapshot_required_keys)) value_error)
          _ tt validated in
      let (ids, collected, v2) = and_then_inv (collect_id_sets snapshot) _ tt v1 in
      let (_, references, _) = and_then_inv (check_references snapshot ids) _ tt v2 in
      decoded-HasReferences snapshot ids t collected
        (check_references-Checked snapshot ids references)
        (reconstruct-Restored snapshot t (no_key_error_inv (reconstruct snapshot) t h2))
  validated-HasReferences Value.null t h = absurd (ground arith)
  validated-HasReferences (Value.bool _) t h = absurd (ground arith)
  validated-HasReferences (Value.int _) t h = absurd (ground arith)
  validated-HasReferences (Value.float _) t h = absurd (ground arith)
  validated-HasReferences (Value.str _) t h = absurd (ground arith)
  validated-HasReferences (Value.list _) t h = absurd (ground arith)
  validated-HasReferences (Value.tuple _) t h = absurd (ground arith)

  -- Whatever the value that `from_snapshot` is given, and whoever made it: if an engine is returned,
  -- it has the given token and revision 0, each of its claims has one of the four statuses, its claims,
  -- evidences and gaps are stored at their own ids, each evidence has its claim, both sides of each
  -- contradiction, of each reference of a claim to a gap and of each resolution of a gap are stored,
  -- and so is every gap of the dedup index.
  pub from_snapshot-HasReferences :
      (token : String) (v : Value F) (s : Engine F)
      → from_snapshot token v ≡ ok s
      → HasReferences (state_view s)
        × Each (λ _ c. IsStatus c.status) s.claims
        × (s.state_identity_token ≡ token)
        × (s.state_revision ≡ pos 0)
  unfolding from_snapshot install state_view init
  from_snapshot-HasReferences token v s h =
      let (t, decoded, h1) = and_then_inv (validate_and_decode_snapshot v) _ s h in
      let (_, statuses, h2) = and_then_inv (admit_claims (values t.claims)) _ s h1 in
      let same : install t (init token) ≡ s = ground arith in
      coe 0 1
        (i.
          HasReferences (state_view (same i))
          × Each (λ _ c. IsStatus c.status) (same i).claims
          × ((same i).state_identity_token ≡ token)
          × ((same i).state_revision ≡ pos 0))
        (validated-HasReferences v t decoded, admit_claims-IsStatus t.claims statuses, refl, refl)
