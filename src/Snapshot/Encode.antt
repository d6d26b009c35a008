-- ===== src/Snapshot/Encode.antt =====
-- ragcore/_engine/serialization.py: the state that is persisted, and its snapshot as a JSON-compatible
-- value.
use intelligent_rag_framewor.Prelude.{
  ℤ, pos, String, List, [], ◌∷◌, map, sort, int_eq, string_eq, pair_eq, quad_eq,
}
use intelligent_rag_framewor.Prelude.Dict.{Dict}
use intelligent_rag_framewor.Prelude.Items.{
  HasOrder, sorted_items, int_order, string_order, pair_order, quad_order,
}
use intelligent_rag_framewor.Value.{Value, Fields}
use intelligent_rag_framewor.Types.{
  Entity, Observation, Claim, Evidence, Relation, Gap, RuleDefinition, RuleStats,
  ClaimLifecycleEvent,
}
use intelligent_rag_framewor.Snapshot.Records.{
  as_fields, dict_of, list_of, entity_to_dict, observation_to_dict, claim_to_dict, evidence_to_dict,
  relation_to_dict, gap_to_dict, rule_def_to_dict, rule_stats_to_dict, event_to_dict,
}

pub record DecodedEngineState (F : Type 0) : Type 0 where
  pub next_id : Dict String ℤ
  pub lifecycle_seq : ℤ
  pub entities : Dict ℤ Entity
  pub observations : Dict ℤ Observation
  pub claims : Dict ℤ (Claim F)
  pub evidences : Dict ℤ (Evidence F)
  pub relations : Dict ℤ Relation
  pub gaps : Dict ℤ (Gap F)
  pub rule_definitions : Dict (ℤ × ℤ) (RuleDefinition F)
  pub rule_stats : Dict (ℤ × ℤ) (RuleStats F)
  pub gap_dedup_index : Dict (ℤ × ℤ × ℤ × ℤ) ℤ
  pub claim_gap_refs : Dict ℤ (List ℤ)
  pub gap_resolutions : Dict ℤ ℤ
  pub contradictions : Dict ℤ (List ℤ)
  pub resolved_contradictions : Dict ℤ (List ℤ)
  pub claim_lifecycle_events : Dict ℤ (List ClaimLifecycleEvent)
  pub hint_evidence_types : List ℤ

abbrev pub pair_key : ℤ × ℤ → List ℤ
pair_key k = k.0 ∷ k.1 ∷ []

abbrev pub quad_key : ℤ × ℤ × ℤ × ℤ → List ℤ
quad_key k = k.0 ∷ k.1 ∷ k.2 ∷ k.3 ∷ []

abbrev pub current_snapshot_schema_version : ℤ
current_snapshot_schema_version = pos 2

module _ {F : Type 0} where
  -- `{"key": k, "value": v}`
  abbrev pub entry : Value F → Value F → Value F
  entry k v = dict_of (("key", k) ∷ ("value", v) ∷ [])

  abbrev pub int_values : List ℤ → List (Value F)
  int_values ns = map (λ n. Value.int n) ns

  abbrev pub ints : List ℤ → Value F
  ints ns = list_of (int_values ns)

  abbrev pub serialize_dict :
      {K V : Type 0} ⦃o : HasOrder K⦄ → (K → Value F) → (V → Value F) → Dict K V → Value F
  serialize_dict key value d = list_of (map (λ e. entry (key e.0) (value e.1)) (sorted_items d))

  abbrev pub serialize_dict_int_dataclass : {V : Type 0} → (V → Value F) → Dict ℤ V → Value F
  serialize_dict_int_dataclass asdict d = serialize_dict (λ k. Value.int k) asdict d

  abbrev pub serialize_dict_tuple_dataclass :
      {V : Type 0} → (V → Value F) → Dict (ℤ × ℤ) V → Value F
  serialize_dict_tuple_dataclass asdict d = serialize_dict (λ k. ints (pair_key k)) asdict d

  abbrev pub serialize_dict_tuple4_int : Dict (ℤ × ℤ × ℤ × ℤ) ℤ → Value F
  serialize_dict_tuple4_int d = serialize_dict (λ k. ints (quad_key k)) (λ n. Value.int n) d

  abbrev pub serialize_dict_int_set : Dict ℤ (List ℤ) → Value F
  serialize_dict_int_set d = serialize_dict (λ k. Value.int k) (λ ns. ints (sort ns)) d

  abbrev pub serialize_dict_int_int : Dict ℤ ℤ → Value F
  serialize_dict_int_int d = serialize_dict (λ k. Value.int k) (λ n. Value.int n) d

  abbrev pub serialize_dict_int_list_dataclass :
      {V : Type 0} → (V → Value F) → Dict ℤ (List V) → Value F
  serialize_dict_int_list_dataclass asdict d =
      serialize_dict (λ k. Value.int k) (λ xs. list_of (map asdict xs)) d

  -- a dict of counters as a dict of values
  abbrev pub counters_to_fields : Dict String ℤ → Fields F
  counters_to_fields d = as_fields (map (λ e. (e.0, Value.int e.1)) d)

  unfoldable pub encode_snapshot : DecodedEngineState F → Fields F
  encode_snapshot s = as_fields (
      ("schema_version", Value.int current_snapshot_schema_version)
      ∷ ("next_id", Value.mapping (counters_to_fields (sorted_items s.next_id)))
      ∷ ("lifecycle_seq", Value.int s.lifecycle_seq)
      ∷ ("entities", serialize_dict_int_dataclass entity_to_dict s.entities)
      ∷ ("observations", serialize_dict_int_dataclass observation_to_dict s.observations)
      ∷ ("claims", serialize_dict_int_dataclass claim_to_dict s.claims)
      ∷ ("evidences", serialize_dict_int_dataclass evidence_to_dict s.evidences)
      ∷ ("relations", serialize_dict_int_dataclass relation_to_dict s.relations)
      ∷ ("gaps", serialize_dict_int_dataclass gap_to_dict s.gaps)
      ∷ ("rule_definitions", serialize_dict_tuple_dataclass rule_def_to_dict s.rule_definitions)
      ∷ ("rule_stats", serialize_dict_tuple_dataclass rule_stats_to_dict s.rule_stats)
      ∷ ("gap_dedup_index", serialize_dict_tuple4_int s.gap_dedup_index)
      ∷ ("claim_gap_refs", serialize_dict_int_set s.claim_gap_refs)
      ∷ ("gap_resolutions", serialize_dict_int_int s.gap_resolutions)
      ∷ ("contradictions", serialize_dict_int_set s.contradictions)
      ∷ ("resolved_contradictions", serialize_dict_int_set s.resolved_contradictions)
      ∷ (
        "claim_lifecycle_events",
        serialize_dict_int_list_dataclass event_to_dict s.claim_lifecycle_events,
      )
      ∷ ("hint_evidence_types", ints (sort s.hint_evidence_types))
      ∷ [])
