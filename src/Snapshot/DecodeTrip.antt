-- ===== src/Snapshot/DecodeTrip.antt =====
-- The state comes back from its snapshot (ragcore/_engine/serialization.py).
use intelligent_rag_framewor.Prelude.{
  ◌≡◌, refl, ℤ, String, [], ◌∷◌, ok, map, sort, int_eq, string_eq, pair_eq, quad_eq,
}
use intelligent_rag_framewor.Prelude.Dict.{Dict}
use intelligent_rag_framewor.Prelude.Items.{
  Unique-sorted_items, sorted_items, int_order, string_order, pair_order, quad_order,
}
use intelligent_rag_framewor.Floats.{Floats}
use intelligent_rag_framewor.Value.{Value}
use intelligent_rag_framewor.Types.{Claim}
use intelligent_rag_framewor.Engine.State.{Engine}
use intelligent_rag_framewor.Spec.Valid.{IsValid}
use intelligent_rag_framewor.Spec.Keyed.{IsKeyed}
use intelligent_rag_framewor.Snapshot.{state_view}
use intelligent_rag_framewor.Snapshot.Records.{
  claim_to_dict, entity_to_dict, observation_to_dict, evidence_to_dict, relation_to_dict,
  gap_to_dict, rule_def_to_dict, rule_stats_to_dict, event_to_dict,
}
use intelligent_rag_framewor.Snapshot.Encode.{
  encode_snapshot, entry, serialize_dict_int_dataclass, serialize_dict_tuple_dataclass,
  serialize_dict_tuple4_int, serialize_dict_int_int, serialize_dict_int_set,
  serialize_dict_int_list_dataclass,
}
use intelligent_rag_framewor.Snapshot.Decode.{reconstruct, check_status_key}
use intelligent_rag_framewor.Snapshot.Collections.{for_each}
use intelligent_rag_framewor.Snapshot.Canonical.{
  canonical, sorted_set, sorted_buckets, RulesAreUnit,
}
use intelligent_rag_framewor.Snapshot.Restore.{
  entity_from_dict, observation_from_dict, claim_from_dict, evidence_from_dict, relation_from_dict,
  gap_from_dict, rule_def_from_dict, rule_stats_from_dict,
}
use intelligent_rag_framewor.Snapshot.Stores.{
  restore_dict_int, restore_dict_tuple, restore_dict_tuple4_int, restore_dict_int_set,
  restore_dict_int_int, restore_dict_int_list_dataclass,
}
use intelligent_rag_framewor.Snapshot.RecordTrips.{
  entity_trip, observation_trip, claim_trip, evidence_trip, relation_trip, gap_trip, rule_def_trip,
  rule_stats_trip,
}
use intelligent_rag_framewor.Snapshot.StoreTrips.{
  to_list-values_of, int_set-ints, events_trip, counters_trip, restore-serialize,
  restore-serialize_same,
}

module _ {F : Type 0} where
  statuses_trip :
      (d : Dict ℤ (Claim F))
      → for_each check_status_key (map (λ p. entry (Value.int p.0) (claim_to_dict p.1)) d) ≡ ok tt
  unfolding for_each
  statuses_trip [] = refl
  statuses_trip (p ∷ d) = statuses_trip d

module _ {F : Type 0} ⦃fl : Floats F⦄ (s : Engine F) (valid : IsValid s) (keyed : IsKeyed s)
    (rules : RulesAreUnit s) where
  entities_trip_store :
      restore_dict_int entity_from_dict
        (serialize_dict_int_dataclass {F = F} entity_to_dict s.entities)
      ≡ ok (sorted_items s.entities)
  entities_trip_store =
      restore-serialize_same _ _ _ _ (λ k. refl) s.entities keyed.entities
        (λ k x _. entity_trip F x)

  observations_trip_store :
      restore_dict_int observation_from_dict
        (serialize_dict_int_dataclass {F = F} observation_to_dict s.observations)
      ≡ ok (sorted_items s.observations)
  observations_trip_store =
      restore-serialize_same _ _ _ _ (λ k. refl) s.observations keyed.observations
        (λ k x _. observation_trip F x)

  claims_trip_store :
      restore_dict_int claim_from_dict (serialize_dict_int_dataclass claim_to_dict s.claims)
      ≡ ok (sorted_items s.claims)
  claims_trip_store =
      restore-serialize_same _ _ _ _ (λ k. refl) s.claims keyed.claims
        (λ k x found. claim_trip x (valid.confidences k x found))

  evidences_trip_store :
      restore_dict_int evidence_from_dict
        (serialize_dict_int_dataclass evidence_to_dict s.evidences)
      ≡ ok (sorted_items s.evidences)
  evidences_trip_store =
      restore-serialize_same _ _ _ _ (λ k. refl) s.evidences keyed.evidences
        (λ k x found. evidence_trip x (valid.strengths k x found))

  relations_trip_store :
      restore_dict_int relation_from_dict
        (serialize_dict_int_dataclass {F = F} relation_to_dict s.relations)
      ≡ ok (sorted_items s.relations)
  relations_trip_store =
      restore-serialize_same _ _ _ _ (λ k. refl) s.relations keyed.relations
        (λ k x _. relation_trip F x)

  gaps_trip_store :
      restore_dict_int gap_from_dict (serialize_dict_int_dataclass gap_to_dict s.gaps)
      ≡ ok (sorted_items s.gaps)
  gaps_trip_store =
      restore-serialize_same _ _ _ _ (λ k. refl) s.gaps keyed.gaps
        (λ k x found. gap_trip x (valid.severities k x found))

  rule_definitions_trip_store :
      restore_dict_tuple rule_def_from_dict
        (serialize_dict_tuple_dataclass rule_def_to_dict s.rule_definitions)
      ≡ ok (sorted_items s.rule_definitions)
  rule_definitions_trip_store =
      restore-serialize_same _ _ _ _ (λ k. refl) s.rule_definitions keyed.rule_definitions
        (λ k x found. rule_def_trip x (rules.priors k x found))

  rule_stats_trip_store :
      restore_dict_tuple rule_stats_from_dict
        (serialize_dict_tuple_dataclass rule_stats_to_dict s.rule_stats)
      ≡ ok (sorted_items s.rule_stats)
  rule_stats_trip_store =
      restore-serialize_same _ _ _ _ (λ k. refl) s.rule_stats keyed.rule_stats
        (λ k x found. rule_stats_trip x (rules.precisions k x found) (rules.rates k x found))

  gap_dedup_index_trip_store :
      restore_dict_tuple4_int (serialize_dict_tuple4_int {F = F} s.gap_dedup_index)
      ≡ ok (sorted_items s.gap_dedup_index)
  gap_dedup_index_trip_store =
      restore-serialize_same _ _ _ _ (λ k. refl) s.gap_dedup_index keyed.gap_dedup_index
        (λ k x _. refl)

  gap_resolutions_trip_store :
      restore_dict_int_int (serialize_dict_int_int {F = F} s.gap_resolutions)
      ≡ ok (sorted_items s.gap_resolutions)
  gap_resolutions_trip_store =
      restore-serialize_same _ _ _ _ (λ k. refl) s.gap_resolutions keyed.gap_resolutions
        (λ k x _. refl)

  claim_lifecycle_events_trip_store :
      restore_dict_int_list_dataclass
        (serialize_dict_int_list_dataclass {F = F} event_to_dict s.claim_lifecycle_events)
      ≡ ok (sorted_items s.claim_lifecycle_events)
  claim_lifecycle_events_trip_store =
      restore-serialize_same _ _ _ _ (λ k. refl) s.claim_lifecycle_events
        keyed.claim_lifecycle_events (λ k x _. events_trip F x)

  claim_gap_refs_trip_store :
      restore_dict_int_set (serialize_dict_int_set {F = F} s.claim_gap_refs)
      ≡ ok (sorted_buckets s.claim_gap_refs)
  claim_gap_refs_trip_store =
      restore-serialize _ _ _ _ sorted_set (λ k. refl) s.claim_gap_refs keyed.claim_gap_refs
        (λ k x _. int_set-ints F (sort x))

  contradictions_trip_store :
      restore_dict_int_set (serialize_dict_int_set {F = F} s.contradictions)
      ≡ ok (sorted_buckets s.contradictions)
  contradictions_trip_store =
      restore-serialize _ _ _ _ sorted_set (λ k. refl) s.contradictions keyed.contradictions
        (λ k x _. int_set-ints F (sort x))

  resolved_contradictions_trip_store :
      restore_dict_int_set (serialize_dict_int_set {F = F} s.resolved_contradictions)
      ≡ ok (sorted_buckets s.resolved_contradictions)
  resolved_contradictions_trip_store =
      restore-serialize _ _ _ _ sorted_set (λ k. refl) s.resolved_contradictions
        keyed.resolved_contradictions (λ k x _. int_set-ints F (sort x))

  -- What is read of the snapshot of a state is the state, in the order of the snapshot.
  pub reconstruct-encode :
      (token : String)
      → reconstruct (encode_snapshot (state_view s)) ≡ ok (state_view (canonical token s))
  unfolding reconstruct encode_snapshot state_view
  reconstruct-encode token =
      rw
        (
          to_list-values_of,
          statuses_trip (sorted_items s.claims),
          counters_trip F (sorted_items s.next_id) (Unique-sorted_items s.next_id keyed.next_id),
          entities_trip_store,
          observations_trip_store,
          claims_trip_store,
          evidences_trip_store,
          relations_trip_store,
          gaps_trip_store,
          rule_definitions_trip_store,
          rule_stats_trip_store,
          gap_dedup_index_trip_store,
          gap_resolutions_trip_store,
          claim_lifecycle_events_trip_store,
          claim_gap_refs_trip_store,
          contradictions_trip_store,
          resolved_contradictions_trip_store,
          int_set-ints F (sort s.hint_evidence_types),
        )
        refl
