-- ===== src/Engine/Crud.antt =====
-- ragcore/_engine/crud.py: entities, observations, claims and evidences.
use intelligent_rag_framewor.Prelude.{
  ℤ, List, not, int_eq, ◌==◌, filter_by, Result, raise_if, value_error, key_error, ◌||◌, string_eq,
}
use intelligent_rag_framewor.Prelude.Dict.{lookup, contains, insert, values}
use intelligent_rag_framewor.Floats.{Floats}
use intelligent_rag_framewor.Types.{Entity, Observation, Claim, Evidence, score_value}
use intelligent_rag_framewor.Types.ClaimStatus
use intelligent_rag_framewor.Engine.State.{
  Call, ◌>>=◌, ◌>>◌, pure, lift, gets, item, modify, fail_if, allocate_id, advance_state_revision,
  assert_entity_exists, assert_claim_exists,
}

-- `_validate_claim_status_admission`, on an int
unfoldable pub validate_claim_status_admission : ℤ → Result (Unit {0})
validate_claim_status_admission value =
    raise_if
      (not (
        value == ClaimStatus.candidate
        || (value == ClaimStatus.confirmed
            || (value == ClaimStatus.disputed || value == ClaimStatus.refuted))))
      value_error

module _ {F : Type 0} where
  unfoldable pub add_entity : ℤ → ℤ → Call F ℤ
  unfolding allocate_id advance_state_revision
  add_entity entity_type flags = do
    entity_id ← allocate_id "entity"
    modify (λ s. record s {
      entities =
          insert entity_id (record { id = entity_id; type = entity_type; flags = flags })
            s.entities;
    })
    advance_state_revision
    pure entity_id

  unfoldable pub get_entity : ℤ → Call F Entity
  get_entity entity_id = do found ← gets (λ s. lookup entity_id s.entities); item found

  unfoldable pub add_observation : ℤ → ℤ → ℤ → ℤ → Call F ℤ
  unfolding allocate_id advance_state_revision assert_entity_exists
  add_observation entity_id raw_ref_id observation_type source_type = do
    assert_entity_exists entity_id
    obs_id ← allocate_id "observation"
    modify (λ s. record s {
      observations =
          insert obs_id
            (record {
              id = obs_id;
              entity_id = entity_id;
              raw_ref_id = raw_ref_id;
              type = observation_type;
              source_type = source_type;
            })
            s.observations;
    })
    advance_state_revision
    pure obs_id

  unfoldable pub get_observation : ℤ → Call F Observation
  get_observation observation_id = do
    found ← gets (λ s. lookup observation_id s.observations)
    item found

  unfoldable pub get_claim : ℤ → Call F (Claim F)
  get_claim claim_id = do found ← gets (λ s. lookup claim_id s.claims); item found

  unfoldable pub get_evidence : ℤ → Call F (Evidence F)
  get_evidence evidence_id = do found ← gets (λ s. lookup evidence_id s.evidences); item found

  unfoldable pub evidences_for_claim : ℤ → Call F (List (Evidence F))
  unfolding assert_claim_exists
  evidences_for_claim claim_id = do
    assert_claim_exists claim_id
    gets (λ s. filter_by (λ ev. ev.claim_id == claim_id) (values s.evidences))

module _ {F : Type 0} ⦃fl : Floats F⦄ where
  unfoldable pub add_claim : ℤ → ℤ → ℤ → ℤ → ℤ → F → ℤ → ℤ → Call F ℤ
  unfolding allocate_id advance_state_revision
  add_claim subject_id claim_type rule_id rule_version reason_code base_confidence status flags = do
    known ← gets (λ s. contains subject_id s.entities)
    fail_if (not known) key_error
    lift (validate_claim_status_admission status)
    validated_base_confidence ← lift (score_value base_confidence)
    claim_id ← allocate_id "claim"
    modify (λ s. record s {
      claims =
          insert claim_id
            (record {
              id = claim_id;
              subject_id = subject_id;
              type = claim_type;
              status = status;
              created_by_rule = rule_id;
              created_by_rule_version = rule_version;
              reason_code = reason_code;
              base_confidence = validated_base_confidence;
              flags = flags;
            })
            s.claims;
    })
    advance_state_revision
    pure claim_id

  unfoldable pub add_evidence : ℤ → ℤ → ℤ → F → Call F ℤ
  unfolding allocate_id advance_state_revision assert_claim_exists
  add_evidence claim_id raw_ref_id evidence_type strength = do
    assert_claim_exists claim_id
    validated_strength ← lift (score_value strength)
    evidence_id ← allocate_id "evidence"
    modify (λ s. record s {
      evidences =
          insert evidence_id
            (record {
              id = evidence_id;
              claim_id = claim_id;
              raw_ref_id = raw_ref_id;
              type = evidence_type;
              strength = validated_strength;
            })
            s.evidences;
    })
    advance_state_revision
    pure evidence_id
