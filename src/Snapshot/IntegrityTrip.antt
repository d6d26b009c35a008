-- ===== src/Snapshot/IntegrityTrip.antt =====
-- The integrity check of ragcore/_engine/serialization.py accepts the snapshot of a valid engine.
use intelligent_rag_framewor.Prelude.{
  ◌≡◌, refl, ℤ, pos, String, true, ok, List, map, all, arith, int_eq, string_eq, pair_eq, quad_eq,
  sort,
}
use intelligent_rag_framewor.Prelude.Dict.{Dict, get_or}
use intelligent_rag_framewor.Prelude.Items.{
  Unique, sorted_items, lookup-sorted_items, int_order, string_order, pair_order, quad_order,
}
use intelligent_rag_framewor.Floats.{Floats}
use intelligent_rag_framewor.Types.{Entity, Claim, Evidence, Relation, Gap}
use intelligent_rag_framewor.Value.{Value, Fields}
use intelligent_rag_framewor.Value.Comparison.{Numbers}
use intelligent_rag_framewor.Engine.State.{Engine, last_id}
use intelligent_rag_framewor.Spec.Valid.{IsValid, Stored}
use intelligent_rag_framewor.Spec.Keyed.{IsKeyed}
use intelligent_rag_framewor.Spec.Valid.Parts.{get_or_nonneg}
use intelligent_rag_framewor.Snapshot.{state_view}
use intelligent_rag_framewor.Snapshot.Records.{
  entity_to_dict, observation_to_dict, claim_to_dict, evidence_to_dict, relation_to_dict,
  gap_to_dict, rule_def_to_dict, rule_stats_to_dict, event_to_dict, list_of,
}
use intelligent_rag_framewor.Snapshot.Encode.{encode_snapshot, ints, counters_to_fields}
use intelligent_rag_framewor.Snapshot.Collections.{has, snapshot_required_keys}
use intelligent_rag_framewor.Snapshot.Integrity.{
  IdSets, collect_id_sets, check_counters, check_references, check_rules, check_counter,
  validate_snapshot_restore_integrity,
}
use intelligent_rag_framewor.Snapshot.ReferenceTrips.{check_counter-entries}
use intelligent_rag_framewor.Snapshot.WrittenTrips.{
  sorted_keys, known_key, collect-written, stored_below, pairs-written, quads-written,
  targets-written,
}
use intelligent_rag_framewor.Snapshot.WrittenReferences.{
  claims_own, evidences_own, gaps_own, evidences_pass, contradictions_pass, refs_pass,
  resolutions_pass, index_pass, resolved_pass,
}

module _ {F : Type 0} (s : Engine F) where
  abbrev snapshot : Fields F
  unfolding encode_snapshot state_view
  snapshot = encode_snapshot (state_view s)

  abbrev ids : IdSets
  ids = record {
    entities = sorted_keys s.entities;
    observations = sorted_keys s.observations;
    claims = sorted_keys s.claims;
    evidences = sorted_keys s.evidences;
    relations = sorted_keys s.relations;
    gaps = sorted_keys s.gaps;
  }

module _ {F : Type 0} ⦃fl : Floats F⦄ ⦃nums : Numbers F⦄ (s : Engine F) (valid : IsValid s)
    (keyed : IsKeyed s) where
  id_sets_pass : collect_id_sets (encode_snapshot (state_view s)) ≡ ok (ids s)
  unfolding collect_id_sets encode_snapshot state_view
  id_sets_pass =
      rw
        (
          collect-written (entity_to_dict {F = F}) s.entities keyed.entities,
          collect-written (observation_to_dict {F = F}) s.observations keyed.observations,
          collect-written (claim_to_dict {F = F}) s.claims keyed.claims,
          collect-written (evidence_to_dict {F = F}) s.evidences keyed.evidences,
          collect-written (relation_to_dict {F = F}) s.relations keyed.relations,
          collect-written (gap_to_dict {F = F}) s.gaps keyed.gaps,
          collect-written (λ (ns : List ℤ). ints {F = F} (sort ns)) s.claim_gap_refs
              keyed.claim_gap_refs,
          collect-written (λ (n : ℤ). Value.int n) s.gap_resolutions keyed.gap_resolutions,
          collect-written (λ (ns : List ℤ). ints {F = F} (sort ns)) s.contradictions
              keyed.contradictions,
          collect-written (λ (ns : List ℤ). ints {F = F} (sort ns)) s.resolved_contradictions
              keyed.resolved_contradictions,
          collect-written (λ es. list_of (map (event_to_dict {F = F}) es)) s.claim_lifecycle_events
              keyed.claim_lifecycle_events,
        )
        refl

  references_pass : check_references (encode_snapshot (state_view s)) (ids s) ≡ ok tt
  unfolding check_references encode_snapshot state_view
  references_pass =
      rw
        (
          claims_own s valid keyed,
          evidences_own s valid keyed,
          gaps_own s valid keyed,
          evidences_pass s valid keyed,
          contradictions_pass s valid keyed,
          index_pass s valid keyed,
          refs_pass s valid keyed,
          resolutions_pass s valid keyed,
          quads-written (λ (n : ℤ). Value.int n) s.gap_dedup_index keyed.gap_dedup_index,
          targets-written F (sorted_keys s.gaps) s.gap_dedup_index keyed.gap_dedup_index
              (λ k g found. known_key g s.gaps keyed.gaps (valid.indexed k g found)),
          resolved_pass s valid keyed,
        )
        refl

  rules_pass : check_rules (encode_snapshot (state_view s)) ≡ ok tt
  unfolding check_rules encode_snapshot state_view
  rules_pass =
      rw
        (
          pairs-written rule_stats_to_dict s.rule_stats keyed.rule_stats,
          pairs-written rule_def_to_dict s.rule_definitions keyed.rule_definitions,
        )
        refl

  sorted_counter : (kind : String) → get_or (sorted_items s.next_id) kind (pos 0) ≡ last_id kind s
  unfolding get_or
  sorted_counter kind = ground (arith, lookup-sorted_items kind s.next_id keyed.next_id)

  counter_pass :
      {V : Type 0} (kind : String) (id : V → ℤ) (d : Dict ℤ V)
      → Unique d
      → Stored id (last_id kind s) d
      → check_counter {F = F} (counters_to_fields (sorted_items s.next_id)) kind (sorted_keys d)
        ≡ ok tt
  counter_pass kind id d u stored =
      check_counter-entries F kind (sorted_keys d) (sorted_items s.next_id)
        (rw (sorted_counter kind) (get_or_nonneg kind s.next_id valid.counts))
        (λ k known. rw (sorted_counter kind) (stored_below id (last_id kind s) d u stored k known))

  counters_pass : check_counters (encode_snapshot (state_view s)) (ids s) ≡ ok tt
  unfolding check_counters encode_snapshot state_view
  counters_pass =
      rw
        (
          counter_pass "entity" (λ (x : Entity). x.id) s.entities keyed.entities valid.entity_ids,
          counter_pass "observation" (λ x. x.id) s.observations keyed.observations
              valid.observation_ids,
          counter_pass "claim" (λ (x : Claim F). x.id) s.claims keyed.claims valid.claim_ids,
          counter_pass "evidence" (λ (x : Evidence F). x.id) s.evidences keyed.evidences
              valid.evidence_ids,
          counter_pass "relation" (λ (x : Relation). x.id) s.relations keyed.relations
              valid.relation_ids,
          counter_pass "gap" (λ (x : Gap F). x.id) s.gaps keyed.gaps valid.gap_ids,
        )
        refl

  keys_pass : all (λ k. has k (encode_snapshot (state_view s))) snapshot_required_keys ≡ true
  unfolding all encode_snapshot state_view
  keys_pass = refl

  -- The integrity check accepts the snapshot of a valid engine.
  pub validate-encode : validate_snapshot_restore_integrity (encode_snapshot (state_view s)) ≡ ok tt
  unfolding validate_snapshot_restore_integrity
  validate-encode = rw (keys_pass, id_sets_pass, references_pass, rules_pass, counters_pass) refl
