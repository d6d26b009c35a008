-- ===== src/Spec/Valid/Preserved.antt =====
-- Every step keeps the invariant.
use intelligent_rag_framewor.Prelude.{
  ℤ, String, ◌≡◌, refl, true, some, List, [], inl, inr, arith, elem, adjoin, int_eq, string_eq,
  quad_eq,
}
use intelligent_rag_framewor.Prelude.Dict.{
  Dict, lookup, contains, insert, get_or, lookup-insert_self,
}
use intelligent_rag_framewor.Floats.{Floats, in_unit}
use intelligent_rag_framewor.Types.{Entity, Observation, Claim, Evidence, Relation, Gap}
use intelligent_rag_framewor.Engine.State.{Engine, last_id}
use intelligent_rag_framewor.Spec.{
  Step, Steps, Edge, IsStatus, Exists, gap_key, with_entity, with_observation, with_claim,
  with_evidence, with_relation, with_gap, with_contradiction, with_status,
}
use intelligent_rag_framewor.Spec.Valid.{IsValid}
use intelligent_rag_framewor.Spec.Valid.Existence.{
  entity_Exists, observation_Exists, claim_Exists, evidence_Exists, relation_Exists, gap_Exists,
  transit_Exists, Each-Exists,
}
use intelligent_rag_framewor.Spec.Valid.Parts.{
  Each-insert, Each-contains, Each-contains_key, EachIn-contains, EachIn-adjoin, EachIn-map,
  elem-with_member, Stored-new, Stored-other, Stored-replace, Counts-insert,
}

contains_known {ℓ} :
    {V : Type ℓ} (k : ℤ) {v : V} (d : Dict ℤ V) → lookup k d ≡ some v → contains k d ≡ true
contains_known k d h = ground arith

contains_self {ℓ} : {V : Type ℓ} (k : ℤ) (v : V) (d : Dict ℤ V) → contains k (insert k v d) ≡ true
contains_self k v d = contains_known k (insert k v d) (lookup-insert_self k v d)

elem_mono :
    (c e k i : ℤ) (d : Dict ℤ (List ℤ))
    → elem i (get_or d k []) ≡ true
    → elem i (get_or (insert c (adjoin e (get_or d c [])) d) k []) ≡ true
elem_mono c e k i d h = ground (arith, elem-with_member c e k i d)

module _ {F : Type 0} ⦃fl : Floats F⦄ where
  Edge-IsStatus : {s : Engine F} {c a b : ℤ} {l : String} → Edge s c a b l → IsStatus b
  Edge-IsStatus (Edge.confirm _ e _ _ _) = inr (inl e)
  Edge-IsStatus (Edge.refute _ e _ _) = inr (inr (inl e))
  Edge-IsStatus (Edge.dispute _ e _ _) = inr (inr (inr e))
  Edge-IsStatus (Edge.resolve_disputed _ e _ _) = inr (inl e)
  Edge-IsStatus (Edge.refute_disputed _ _ e _ _) = inr (inr (inl e))
  Edge-IsStatus (Edge.refute_by_freshness _ _ e _ _ _) = inr (inr (inl e))

  Step-IsValid : {s t : Engine F} → Step s t → IsValid s → IsValid t
  Step-IsValid {s} (Step.add_entity x fresh) h = assumption (
    Counts-insert "entity" x.id s.next_id h.counts fresh,
    Stored-new (λ (y : Entity). y.id) "entity" x.id x s.next_id s.entities h.counts h.entity_ids
        fresh refl,
    Stored-other (λ (y : Observation). y.id) "entity" "observation" x.id s.next_id s.observations
        refl h.observation_ids,
    Stored-other (λ (y : Claim F). y.id) "entity" "claim" x.id s.next_id s.claims refl h.claim_ids,
    Stored-other (λ (y : Evidence F). y.id) "entity" "evidence" x.id s.next_id s.evidences refl
        h.evidence_ids,
    Stored-other (λ (y : Relation). y.id) "entity" "relation" x.id s.next_id s.relations refl
        h.relation_ids,
    Stored-other (λ (y : Gap F). y.id) "entity" "gap" x.id s.next_id s.gaps refl h.gap_ids,
    Each-contains (λ y. y.entity_id) x.id x s.observations s.entities h.observed,
    Each-contains (λ y. y.subject_id) x.id x s.claims s.entities h.subjects,
    Each-Exists s (with_entity s x) (λ r. r.from_kind) (λ r. r.from_id) (entity_Exists s x)
        h.from_ends,
    Each-Exists s (with_entity s x) (λ r. r.to_kind) (λ r. r.to_id) (entity_Exists s x) h.to_ends,
  )
  Step-IsValid {s} (Step.add_observation x fresh known) h = assumption (
    Counts-insert "observation" x.id s.next_id h.counts fresh,
    Stored-other (λ (y : Entity). y.id) "observation" "entity" x.id s.next_id s.entities refl
        h.entity_ids,
    Stored-new (λ (y : Observation). y.id) "observation" x.id x s.next_id s.observations h.counts
        h.observation_ids fresh refl,
    Stored-other (λ (y : Claim F). y.id) "observation" "claim" x.id s.next_id s.claims refl
        h.claim_ids,
    Stored-other (λ (y : Evidence F). y.id) "observation" "evidence" x.id s.next_id s.evidences refl
        h.evidence_ids,
    Stored-other (λ (y : Relation). y.id) "observation" "relation" x.id s.next_id s.relations refl
        h.relation_ids,
    Stored-other (λ (y : Gap F). y.id) "observation" "gap" x.id s.next_id s.gaps refl h.gap_ids,
    Each-insert (λ _ y. contains y.entity_id s.entities ≡ true) x.id x s.observations h.observed
        known,
    Each-Exists s (with_observation s x) (λ r. r.from_kind) (λ r. r.from_id)
        (observation_Exists s x) h.from_ends,
    Each-Exists s (with_observation s x) (λ r. r.to_kind) (λ r. r.to_id) (observation_Exists s x)
        h.to_ends,
  )
  Step-IsValid {s} (Step.add_claim x fresh known status score) h = assumption (
    Counts-insert "claim" x.id s.next_id h.counts fresh,
    Stored-other (λ (y : Entity). y.id) "claim" "entity" x.id s.next_id s.entities refl
        h.entity_ids,
    Stored-other (λ (y : Observation). y.id) "claim" "observation" x.id s.next_id s.observations
        refl h.observation_ids,
    Stored-new (λ (y : Claim F). y.id) "claim" x.id x s.next_id s.claims h.counts h.claim_ids fresh
        refl,
    Stored-other (λ (y : Evidence F). y.id) "claim" "evidence" x.id s.next_id s.evidences refl
        h.evidence_ids,
    Stored-other (λ (y : Relation). y.id) "claim" "relation" x.id s.next_id s.relations refl
        h.relation_ids,
    Stored-other (λ (y : Gap F). y.id) "claim" "gap" x.id s.next_id s.gaps refl h.gap_ids,
    Each-insert (λ _ y. contains y.subject_id s.entities ≡ true) x.id x s.claims h.subjects known,
    Each-insert (λ _ y. IsStatus y.status) x.id x s.claims h.statuses status,
    Each-insert (λ _ y. in_unit y.base_confidence.value ≡ true) x.id x s.claims h.confidences score,
    Each-contains (λ y. y.claim_id) x.id x s.evidences s.claims h.supported,
    Each-contains (λ y. y.claim_id) x.id x s.gaps s.claims h.gap_claims,
    Each-contains_key x.id x s.claim_gap_refs s.claims h.referring,
    Each-contains_key x.id x s.contradictions s.claims h.contradicted,
    Each-Exists s (with_claim s x) (λ r. r.from_kind) (λ r. r.from_id) (claim_Exists s x)
        h.from_ends,
    Each-Exists s (with_claim s x) (λ r. r.to_kind) (λ r. r.to_id) (claim_Exists s x) h.to_ends,
  )
  Step-IsValid {s} (Step.add_evidence x fresh known score) h = assumption (
    Counts-insert "evidence" x.id s.next_id h.counts fresh,
    Stored-other (λ (y : Entity). y.id) "evidence" "entity" x.id s.next_id s.entities refl
        h.entity_ids,
    Stored-other (λ (y : Observation). y.id) "evidence" "observation" x.id s.next_id s.observations
        refl h.observation_ids,
    Stored-other (λ (y : Claim F). y.id) "evidence" "claim" x.id s.next_id s.claims refl
        h.claim_ids,
    Stored-new (λ (y : Evidence F). y.id) "evidence" x.id x s.next_id s.evidences h.counts
        h.evidence_ids fresh refl,
    Stored-other (λ (y : Relation). y.id) "evidence" "relation" x.id s.next_id s.relations refl
        h.relation_ids,
    Stored-other (λ (y : Gap F). y.id) "evidence" "gap" x.id s.next_id s.gaps refl h.gap_ids,
    Each-insert (λ _ y. contains y.claim_id s.claims ≡ true) x.id x s.evidences h.supported known,
    Each-insert (λ _ y. in_unit y.strength.value ≡ true) x.id x s.evidences h.strengths score,
    Each-contains (λ e. e) x.id x s.gap_resolutions s.evidences h.resolving,
    EachIn-contains x.id x s.contradictions s.evidences h.contradicting,
    Each-Exists s (with_evidence s x) (λ r. r.from_kind) (λ r. r.from_id) (evidence_Exists s x)
        h.from_ends,
    Each-Exists s (with_evidence s x) (λ r. r.to_kind) (λ r. r.to_id) (evidence_Exists s x)
        h.to_ends,
  )
  Step-IsValid {s} (Step.add_relation x fresh known_from known_to) h = assumption (
    Counts-insert "relation" x.id s.next_id h.counts fresh,
    Stored-other (λ (y : Entity). y.id) "relation" "entity" x.id s.next_id s.entities refl
        h.entity_ids,
    Stored-other (λ (y : Observation). y.id) "relation" "observation" x.id s.next_id s.observations
        refl h.observation_ids,
    Stored-other (λ (y : Claim F). y.id) "relation" "claim" x.id s.next_id s.claims refl
        h.claim_ids,
    Stored-other (λ (y : Evidence F). y.id) "relation" "evidence" x.id s.next_id s.evidences refl
        h.evidence_ids,
    Stored-new (λ (y : Relation). y.id) "relation" x.id x s.next_id s.relations h.counts
        h.relation_ids fresh refl,
    Stored-other (λ (y : Gap F). y.id) "relation" "gap" x.id s.next_id s.gaps refl h.gap_ids,
    Each-insert (λ _ y. Exists y.from_kind y.from_id (with_relation s x)) x.id x s.relations
        (Each-Exists s (with_relation s x) (λ r. r.from_kind) (λ r. r.from_id) (relation_Exists s x)
          h.from_ends)
        (relation_Exists s x x.from_kind x.from_id known_from),
    Each-insert (λ _ y. Exists y.to_kind y.to_id (with_relation s x)) x.id x s.relations
        (Each-Exists s (with_relation s x) (λ r. r.to_kind) (λ r. r.to_id) (relation_Exists s x)
          h.to_ends)
        (relation_Exists s x x.to_kind x.to_id known_to),
  )
  Step-IsValid {s} (Step.add_gap claim g fresh known new score) h = assumption (
    Counts-insert "gap" g.id s.next_id h.counts fresh,
    Stored-other (λ (y : Entity). y.id) "gap" "entity" g.id s.next_id s.entities refl h.entity_ids,
    Stored-other (λ (y : Observation). y.id) "gap" "observation" g.id s.next_id s.observations refl
        h.observation_ids,
    Stored-other (λ (y : Claim F). y.id) "gap" "claim" g.id s.next_id s.claims refl h.claim_ids,
    Stored-other (λ (y : Evidence F). y.id) "gap" "evidence" g.id s.next_id s.evidences refl
        h.evidence_ids,
    Stored-other (λ (y : Relation). y.id) "gap" "relation" g.id s.next_id s.relations refl
        h.relation_ids,
    Stored-new (λ (y : Gap F). y.id) "gap" g.id g s.next_id s.gaps h.counts h.gap_ids fresh refl,
    Each-insert (λ _ y. contains y.claim_id s.claims ≡ true) g.id g s.gaps h.gap_claims
        (contains_known g.claim_id s.claims known),
    Each-insert (λ _ y. in_unit y.severity.value ≡ true) g.id g s.gaps h.severities score,
    Each-insert (λ _ i. contains i (insert g.id g s.gaps) ≡ true) (gap_key claim g) g.id
        s.gap_dedup_index (Each-contains (λ i. i) g.id g s.gap_dedup_index s.gaps h.indexed)
        (contains_self g.id g s.gaps),
    Each-insert (λ c _. contains c s.claims ≡ true) g.claim_id
        (adjoin g.id (get_or s.claim_gap_refs g.claim_id [])) s.claim_gap_refs h.referring
        (contains_known g.claim_id s.claims known),
    EachIn-adjoin (λ _ i. contains i (insert g.id g s.gaps) ≡ true) g.claim_id g.id s.claim_gap_refs
        (EachIn-contains g.id g s.claim_gap_refs s.gaps h.referred) (contains_self g.id g s.gaps),
    Each-contains_key g.id g s.gap_resolutions s.gaps h.resolved_gaps,
    Each-Exists s (with_gap s claim g) (λ r. r.from_kind) (λ r. r.from_id) (gap_Exists s claim g)
        h.from_ends,
    Each-Exists s (with_gap s claim g) (λ r. r.to_kind) (λ r. r.to_id) (gap_Exists s claim g)
        h.to_ends,
  )
  Step-IsValid {s} (Step.refer c claim g r t e known hit) h = assumption (
    Each-insert (λ c _. contains c s.claims ≡ true) c (adjoin g (get_or s.claim_gap_refs c []))
        s.claim_gap_refs h.referring (contains_known c s.claims known),
    EachIn-adjoin (λ _ i. contains i s.gaps ≡ true) c g s.claim_gap_refs h.referred
        (h.indexed (claim.subject_id, r, t, e) g hit),
  )
  Step-IsValid {s} (Step.resolve e x g gap known found same refers new) h = assumption (
    Each-insert (λ g _. contains g s.gaps ≡ true) g e s.gap_resolutions h.resolved_gaps
        (contains_known g s.gaps found),
    Each-insert (λ _ e. contains e s.evidences ≡ true) g e s.gap_resolutions h.resolving
        (contains_known e s.evidences known),
  )
  Step-IsValid {s} (Step.contradict c e known found) h = assumption (
    Each-insert (λ c _. contains c s.claims ≡ true) c (adjoin e (get_or s.contradictions c []))
        s.contradictions h.contradicted known,
    EachIn-adjoin (λ _ e. contains e s.evidences ≡ true) c e s.contradictions h.contradicting found,
    EachIn-map (λ c i. elem i (get_or s.contradictions c []) ≡ true)
        (λ k i. elem i (get_or (with_contradiction s c e).contradictions k []) ≡ true)
        s.resolved_contradictions (λ k i m. elem_mono c e k i s.contradictions m) h.settled,
  )
  Step-IsValid {s} (Step.settle c e known found) h = assumption (
      EachIn-adjoin (λ c e. elem e (get_or s.contradictions c []) ≡ true) c e
        s.resolved_contradictions h.settled found)
  Step-IsValid {s} (Step.transit c claim to label known edge) h = assumption (
    Stored-replace (λ (y : Claim F). y.id) (last_id "claim" s) c claim
        (record claim { status = to }) s.claims h.claim_ids known refl,
    Each-insert (λ _ y. contains y.subject_id s.entities ≡ true) c (record claim { status = to })
        s.claims h.subjects (h.subjects c claim known),
    Each-insert (λ _ y. IsStatus y.status) c (record claim { status = to }) s.claims h.statuses
        (Edge-IsStatus edge),
    Each-insert (λ _ y. in_unit y.base_confidence.value ≡ true) c (record claim { status = to })
        s.claims h.confidences (h.confidences c claim known),
    Each-contains (λ y. y.claim_id) c (record claim { status = to }) s.evidences s.claims
        h.supported,
    Each-contains (λ y. y.claim_id) c (record claim { status = to }) s.gaps s.claims h.gap_claims,
    Each-contains_key c (record claim { status = to }) s.claim_gap_refs s.claims h.referring,
    Each-contains_key c (record claim { status = to }) s.contradictions s.claims h.contradicted,
    Each-Exists s (with_status s c claim to label) (λ r. r.from_kind) (λ r. r.from_id)
        (transit_Exists s c claim to label) h.from_ends,
    Each-Exists s (with_status s c claim to label) (λ r. r.to_kind) (λ r. r.to_id)
        (transit_Exists s c claim to label) h.to_ends,
  )
  Step-IsValid (Step.register_rule d x new) h = assumption
  Step-IsValid (Step.update_stats r v x known) h = assumption
  Step-IsValid (Step.set_hints ns) h = assumption
  Step-IsValid Step.advance h = assumption

  pub Steps-IsValid : {s t : Engine F} → Steps s t → IsValid s → IsValid t
  Steps-IsValid Steps.here h = h
  Steps-IsValid (Steps.next p st) h = Step-IsValid st (Steps-IsValid p h)
