-- ===== src/Snapshot/Canonical.antt =====
-- The engine that a snapshot is restored to (ragcore/_engine/snapshot.py): the same entries, each dict
-- and set in the order that the snapshot gives it.
use intelligent_rag_framewor.Prelude.{
  ◌≡◌, ℤ, pos, String, true, List, [], map, sort, elem, int_eq, string_eq, pair_eq, quad_eq,
}
use intelligent_rag_framewor.Prelude.Dict.{Dict, lookup, get_or}
use intelligent_rag_framewor.Prelude.Items.{
  sorted_items, int_order, string_order, pair_order, quad_order,
}
use intelligent_rag_framewor.Floats.{Floats, in_unit}
use intelligent_rag_framewor.Engine.State.{Engine}
use intelligent_rag_framewor.Engine.HintEvidence.{update_set}
use intelligent_rag_framewor.Spec.Valid.{Each}
use intelligent_rag_framewor.Snapshot.RecordTrips.{IsOptionalUnit}

abbrev pub sorted_set : List ℤ → List ℤ
sorted_set ns = update_set [] (sort ns)

abbrev pub sorted_buckets : Dict ℤ (List ℤ) → Dict ℤ (List ℤ)
sorted_buckets d = map (λ p. (p.0, sorted_set p.1)) (sorted_items d)

module _ {F : Type 0} where
  abbrev pub canonical : String → Engine F → Engine F
  canonical token s = record {
    next_id = sorted_items s.next_id;
    entities = sorted_items s.entities;
    observations = sorted_items s.observations;
    claims = sorted_items s.claims;
    evidences = sorted_items s.evidences;
    relations = sorted_items s.relations;
    gaps = sorted_items s.gaps;
    rule_definitions = sorted_items s.rule_definitions;
    rule_stats = sorted_items s.rule_stats;
    gap_dedup_index = sorted_items s.gap_dedup_index;
    claim_gap_refs = sorted_buckets s.claim_gap_refs;
    gap_resolutions = sorted_items s.gap_resolutions;
    contradictions = sorted_buckets s.contradictions;
    resolved_contradictions = sorted_buckets s.resolved_contradictions;
    lifecycle_seq = s.lifecycle_seq;
    claim_lifecycle_events = sorted_items s.claim_lifecycle_events;
    hint_evidence_types = sorted_set s.hint_evidence_types;
    state_identity_token = token;
    state_revision = pos 0;
  }

  -- Every read of a store gives the same in both engines; the identity is left out.
  pub record SameStores (s t : Engine F) : Type 0 where
    pub next_id : (k : String) → lookup k t.next_id ≡ lookup k s.next_id
    pub entities : (k : ℤ) → lookup k t.entities ≡ lookup k s.entities
    pub observations : (k : ℤ) → lookup k t.observations ≡ lookup k s.observations
    pub claims : (k : ℤ) → lookup k t.claims ≡ lookup k s.claims
    pub evidences : (k : ℤ) → lookup k t.evidences ≡ lookup k s.evidences
    pub relations : (k : ℤ) → lookup k t.relations ≡ lookup k s.relations
    pub gaps : (k : ℤ) → lookup k t.gaps ≡ lookup k s.gaps
    pub rule_definitions : (k : ℤ × ℤ) → lookup k t.rule_definitions ≡ lookup k s.rule_definitions
    pub rule_stats : (k : ℤ × ℤ) → lookup k t.rule_stats ≡ lookup k s.rule_stats
    pub gap_dedup_index :
        (k : ℤ × ℤ × ℤ × ℤ) → lookup k t.gap_dedup_index ≡ lookup k s.gap_dedup_index
    pub claim_gap_refs :
        (k i : ℤ) → elem i (get_or t.claim_gap_refs k []) ≡ elem i (get_or s.claim_gap_refs k [])
    pub gap_resolutions : (k : ℤ) → lookup k t.gap_resolutions ≡ lookup k s.gap_resolutions
    pub contradictions :
        (k i : ℤ) → elem i (get_or t.contradictions k []) ≡ elem i (get_or s.contradictions k [])
    pub resolved_contradictions :
        (k i : ℤ)
        → elem i (get_or t.resolved_contradictions k [])
          ≡ elem i (get_or s.resolved_contradictions k [])
    pub lifecycle_seq : t.lifecycle_seq ≡ s.lifecycle_seq
    pub claim_lifecycle_events :
        (k : ℤ) → lookup k t.claim_lifecycle_events ≡ lookup k s.claim_lifecycle_events
    pub hint_evidence_types : (i : ℤ) → elem i t.hint_evidence_types ≡ elem i s.hint_evidence_types

module _ {F : Type 0} ⦃fl : Floats F⦄ where
  -- The scores of the rules are values that `ScoreValue` admits.
  pub record RulesAreUnit (s : Engine F) : Type 0 where
    pub priors : Each (λ _ d. in_unit d.prior_confidence.value ≡ true) s.rule_definitions
    pub precisions : Each (λ _ x. IsOptionalUnit x.observed_precision) s.rule_stats
    pub rates : Each (λ _ x. IsOptionalUnit x.false_positive_rate) s.rule_stats
