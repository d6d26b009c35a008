-- ===== src/Session/Refinement/Crud.antt =====
-- The calls of ragcore/_engine/crud.py and relations.py, as steps of the abstract machine.
use intelligent_rag_framewor.Prelude.{
  ℤ, pos, ◌+ℤ◌, ◌≡◌, refl, ◌⊎◌, inl, inr, true, ok, arith, int_eq, string_eq, eqb_ℤ_iff,
}
use intelligent_rag_framewor.Prelude.Dict.{contains}
use intelligent_rag_framewor.Floats.{Floats, in_unit}
use intelligent_rag_framewor.Types.{Observation, Claim, Evidence, Relation, score_value}
use intelligent_rag_framewor.Types.ClaimStatus
use intelligent_rag_framewor.Types.Kind
use intelligent_rag_framewor.Engine.State.{Engine, last_id, id_exists}
use intelligent_rag_framewor.Engine.Crud.{
  add_entity, add_observation, add_claim, add_evidence, validate_claim_status_admission,
}
use intelligent_rag_framewor.Engine.Relations.{add_relation}
use intelligent_rag_framewor.Spec.{
  Step, Steps, IsStatus, Exists, counted, with_observation, with_claim, with_evidence,
  with_relation,
}

module _ {F : Type 0} ⦃fl : Floats F⦄ (s : Engine F) where
  pub add_entity-Steps : (type flags : ℤ) → Steps s (add_entity type flags s).1
  unfolding add_entity
  add_entity-Steps type flags = counted (Step.add_entity _ refl)

  abbrev revised : Engine F → Engine F
  revised t = record t { state_revision = s.state_revision +ℤ pos 1 }

  abbrev new_observation : ℤ → ℤ → ℤ → ℤ → Observation
  new_observation entity_id raw_ref_id type source_type = record {
    id = last_id "observation" s +ℤ pos 1;
    entity_id = entity_id;
    raw_ref_id = raw_ref_id;
    type = type;
    source_type = source_type;
  }

  add_observation_outcome :
      (e r t k : ℤ)
      → ((add_observation e r t k s).1 ≡ s)
        ⊎ (((add_observation e r t k s).1 ≡ revised (with_observation s (new_observation e r t k)))
            × (contains e s.entities ≡ true))
  unfolding add_observation
  add_observation_outcome e r t k = ground arith

  pub add_observation-Steps : (e r t k : ℤ) → Steps s (add_observation e r t k s).1
  add_observation-Steps e r t k = elim (add_observation_outcome e r t k) [
    | inl same ↦ rw same Steps.here
    | inr (new, known) ↦
        rw new (counted (Step.add_observation (new_observation e r t k) refl known))
  ]

  abbrev new_claim : ℤ → ℤ → ℤ → ℤ → ℤ → F → ℤ → ℤ → Claim F
  new_claim subject_id type rule_id rule_version reason_code base_confidence status flags = record {
    id = last_id "claim" s +ℤ pos 1;
    subject_id = subject_id;
    type = type;
    status = status;
    created_by_rule = rule_id;
    created_by_rule_version = rule_version;
    reason_code = reason_code;
    base_confidence = record { value = base_confidence };
    flags = flags;
  }

  add_claim_outcome :
      (u t r v n : ℤ) (b : F) (st f : ℤ)
      → ((add_claim u t r v n b st f s).1 ≡ s)
        ⊎ (((add_claim u t r v n b st f s).1 ≡ revised (with_claim s (new_claim u t r v n b st f)))
            × (contains u s.entities ≡ true)
            × IsStatus st
            × (in_unit b ≡ true))
  unfolding add_claim score_value validate_claim_status_admission
  add_claim_outcome u t r v n b st f = ground (
    arith,
    eqb_ℤ_iff st ClaimStatus.candidate,
    eqb_ℤ_iff st ClaimStatus.confirmed,
    eqb_ℤ_iff st ClaimStatus.refuted,
    eqb_ℤ_iff st ClaimStatus.disputed,
  )

  pub add_claim-Steps :
      (u t r v n : ℤ) (b : F) (st f : ℤ) → Steps s (add_claim u t r v n b st f s).1
  add_claim-Steps u t r v n b st f = elim (add_claim_outcome u t r v n b st f) [
    | inl same ↦ rw same Steps.here
    | inr (new, known, status, score) ↦
        rw new (counted (Step.add_claim (new_claim u t r v n b st f) refl known status score))
  ]

  abbrev new_evidence : ℤ → ℤ → ℤ → F → Evidence F
  new_evidence claim_id raw_ref_id type strength = record {
    id = last_id "evidence" s +ℤ pos 1;
    claim_id = claim_id;
    raw_ref_id = raw_ref_id;
    type = type;
    strength = record { value = strength };
  }

  add_evidence_outcome :
      (c r t : ℤ) (x : F)
      → ((add_evidence c r t x s).1 ≡ s)
        ⊎ (((add_evidence c r t x s).1 ≡ revised (with_evidence s (new_evidence c r t x)))
            × (contains c s.claims ≡ true)
            × (in_unit x ≡ true))
  unfolding add_evidence score_value
  add_evidence_outcome c r t x = ground arith

  pub add_evidence-Steps : (c r t : ℤ) (x : F) → Steps s (add_evidence c r t x s).1
  add_evidence-Steps c r t x = elim (add_evidence_outcome c r t x) [
    | inl same ↦ rw same Steps.here
    | inr (new, known, score) ↦
        rw new (counted (Step.add_evidence (new_evidence c r t x) refl known score))
  ]

  abbrev new_relation : ℤ → ℤ → ℤ → ℤ → ℤ → ℤ → ℤ → Relation
  new_relation from_kind from_id to_kind to_id type rule_id reason_code = record {
    id = last_id "relation" s +ℤ pos 1;
    from_kind = from_kind;
    from_id = from_id;
    to_kind = to_kind;
    to_id = to_id;
    type = type;
    rule_id = rule_id;
    reason_code = reason_code;
  }

  -- `id_exists` reads, and where it says yes the id exists.
  id_exists_outcome :
      (kind i : ℤ)
      → ((id_exists kind i s).1 ≡ s) × ((id_exists kind i s).0 ≡ ok true → Exists kind i s)
  unfolding id_exists
  id_exists_outcome kind i = ground (
    arith,
    eqb_ℤ_iff kind Kind.entity,
    eqb_ℤ_iff kind Kind.observation,
    eqb_ℤ_iff kind Kind.claim,
    eqb_ℤ_iff kind Kind.evidence,
    eqb_ℤ_iff kind Kind.relation,
    eqb_ℤ_iff kind Kind.gap,
  )

  add_relation_outcome :
      (k i l j t r n : ℤ)
      → ((add_relation k i l j t r n s).1 ≡ s)
        ⊎ (((add_relation k i l j t r n s).1
              ≡ revised (with_relation s (new_relation k i l j t r n)))
            × Exists k i s
            × Exists l j s)
  unfolding add_relation
  add_relation_outcome k i l j t r n = ground (arith, id_exists_outcome k i, id_exists_outcome l j)

  pub add_relation-Steps : (k i l j t r n : ℤ) → Steps s (add_relation k i l j t r n s).1
  add_relation-Steps k i l j t r n = elim (add_relation_outcome k i l j t r n) [
    | inl same ↦ rw same Steps.here
    | inr (new, known_from, known_to) ↦
        rw new (counted (Step.add_relation (new_relation k i l j t r n) refl known_from known_to))
  ]
