-- ===== src/Spec/Changes.antt =====
-- The states after the single changes of `Engine` (ragcore/engine.py and the mixins), and the guards
-- that they have in common.
use intelligent_rag_framewor.Prelude.{
  ℤ, pos, ◌+ℤ◌, String, true, ◌≡◌, ◌⊎◌, List, [], ◌∷◌, ◌++◌, int_eq, string_eq, pair_eq, quad_eq,
  adjoin, difference,
}
use intelligent_rag_framewor.Prelude.Dict.{contains, insert, get_or}
use intelligent_rag_framewor.Types.{
  Entity, Observation, Claim, Evidence, Relation, Gap, ClaimLifecycleEvent,
}
use intelligent_rag_framewor.Types.ClaimStatus
use intelligent_rag_framewor.Types.Kind
use intelligent_rag_framewor.Engine.State.{Engine, last_id}

abbrev pub IsStatus : ℤ → Type 0
IsStatus n =
    (n ≡ ClaimStatus.candidate)
    ⊎ ((n ≡ ClaimStatus.confirmed) ⊎ ((n ≡ ClaimStatus.refuted) ⊎ (n ≡ ClaimStatus.disputed)))

module _ {F : Type 0} where
  -- an id of the kind that no record has had
  abbrev pub IsFresh : String → ℤ → Engine F → Type 0
  IsFresh kind id s = id ≡ last_id kind s +ℤ pos 1

  -- the record of the kind and id exists
  abbrev pub Exists : ℤ → ℤ → Engine F → Type 0
  Exists kind id s =
      ((kind ≡ Kind.entity) × (contains id s.entities ≡ true))
      ⊎ (((kind ≡ Kind.observation) × (contains id s.observations ≡ true))
          ⊎ (((kind ≡ Kind.claim) × (contains id s.claims ≡ true))
              ⊎ (((kind ≡ Kind.evidence) × (contains id s.evidences ≡ true))
                  ⊎ (((kind ≡ Kind.relation) × (contains id s.relations ≡ true))
                      ⊎ ((kind ≡ Kind.gap) × (contains id s.gaps ≡ true))))))

  abbrev pub gap_key : Claim F → Gap F → ℤ × ℤ × ℤ × ℤ
  gap_key claim g = (claim.subject_id, g.created_by_rule, g.type, g.required_evidence_type)

  abbrev pub with_entity : Engine F → Entity → Engine F
  with_entity s x = record s {
    next_id = insert "entity" x.id s.next_id;
    entities = insert x.id x s.entities;
  }

  abbrev pub with_observation : Engine F → Observation → Engine F
  with_observation s x = record s {
    next_id = insert "observation" x.id s.next_id;
    observations = insert x.id x s.observations;
  }

  abbrev pub with_claim : Engine F → Claim F → Engine F
  with_claim s x = record s {
    next_id = insert "claim" x.id s.next_id;
    claims = insert x.id x s.claims;
  }

  abbrev pub with_evidence : Engine F → Evidence F → Engine F
  with_evidence s x = record s {
    next_id = insert "evidence" x.id s.next_id;
    evidences = insert x.id x s.evidences;
  }

  abbrev pub with_relation : Engine F → Relation → Engine F
  with_relation s x = record s {
    next_id = insert "relation" x.id s.next_id;
    relations = insert x.id x s.relations;
  }

  abbrev pub with_ref : Engine F → ℤ → ℤ → Engine F
  with_ref s c g = record s {
    claim_gap_refs = insert c (adjoin g (get_or s.claim_gap_refs c [])) s.claim_gap_refs;
  }

  abbrev pub with_gap : Engine F → Claim F → Gap F → Engine F
  with_gap s claim g = record s {
    next_id = insert "gap" g.id s.next_id;
    gaps = insert g.id g s.gaps;
    gap_dedup_index = insert (gap_key claim g) g.id s.gap_dedup_index;
    claim_gap_refs =
        insert g.claim_id (adjoin g.id (get_or s.claim_gap_refs g.claim_id [])) s.claim_gap_refs;
  }

  abbrev pub with_resolution : Engine F → ℤ → ℤ → Engine F
  with_resolution s g e = record s { gap_resolutions = insert g e s.gap_resolutions }

  abbrev pub with_contradiction : Engine F → ℤ → ℤ → Engine F
  with_contradiction s c e = record s {
    contradictions = insert c (adjoin e (get_or s.contradictions c [])) s.contradictions;
  }

  abbrev pub with_resolved_contradiction : Engine F → ℤ → ℤ → Engine F
  with_resolved_contradiction s c e = record s {
    resolved_contradictions =
        insert c (adjoin e (get_or s.resolved_contradictions c [])) s.resolved_contradictions;
  }

  abbrev pub event_of : Engine F → ℤ → ℤ → ℤ → String → ClaimLifecycleEvent
  event_of s c from to label = record {
    seq = s.lifecycle_seq +ℤ pos 1;
    claim_id = c;
    from_status = from;
    to_status = to;
    transition = label;
  }

  abbrev pub with_status : Engine F → ℤ → Claim F → ℤ → String → Engine F
  with_status s c claim to label = record s {
    claims = insert c (record claim { status = to }) s.claims;
    lifecycle_seq = s.lifecycle_seq +ℤ pos 1;
    claim_lifecycle_events =
        insert c (get_or s.claim_lifecycle_events c [] ++ event_of s c claim.status to label ∷ [])
          s.claim_lifecycle_events;
  }

  -- the contradictions of a claim that are not settled
  abbrev pub active : Engine F → ℤ → List ℤ
  active s c = difference (get_or s.contradictions c []) (get_or s.resolved_contradictions c [])
