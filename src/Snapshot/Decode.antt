-- ===== src/Snapshot/Decode.antt =====
-- ragcore/_engine/serialization.py: the migration of old snapshots, and the way from a snapshot to the
-- state that it holds.
use intelligent_rag_framewor.Prelude.{
  ℤ, pos, String, Bool, not, none, some, List, [], Result, ok, raise, Error, value_error,
  type_error, untyped, and_then, ◌>>=◌, ◌>>◌, raise_if, ◌==◌, ◌||◌, string_eq, if◌then◌else◌,
}
use intelligent_rag_framewor.Floats.{Floats}
use intelligent_rag_framewor.Value.{Value, Values, Fields}
use intelligent_rag_framewor.Value.Comparison.{Numbers, lookup_field, value_eq}
use intelligent_rag_framewor.Snapshot.Arguments.{subscript, subscript_value}
use intelligent_rag_framewor.Snapshot.Encode.{DecodedEngineState}
use intelligent_rag_framewor.Snapshot.Restore.{
  entity_from_dict, observation_from_dict, claim_from_dict, evidence_from_dict, relation_from_dict,
  gap_from_dict, rule_def_from_dict, rule_stats_from_dict,
}
use intelligent_rag_framewor.Snapshot.Stores.{
  hashable, int_set, restore_dict_int, restore_dict_tuple, restore_dict_tuple4_int,
  restore_dict_int_set, restore_dict_int_int, restore_dict_int_list_dataclass, restore_counters,
}
use intelligent_rag_framewor.Snapshot.Collections.{list_at, for_each, has}
use intelligent_rag_framewor.Snapshot.Integrity.{validate_snapshot_restore_integrity}

-- `except KeyError: raise ValueError`
abbrev pub no_key_error : {A : Type 0} → Result A → Result A
no_key_error (raise Error.key_error) = raise value_error
no_key_error r = r

module _ {F : Type 0} where
  -- `d[k] = v`
  unfoldable pub set_field : String → Value F → Fields F → Fields F
  set_field k v Fields.end = Fields.field k v Fields.end
  set_field k v (Fields.field j w fs) =
      if j == k then Fields.field j v fs else Fields.field j w (set_field k v fs)

  unfoldable pub migrate_snapshot_v1_to_v2 : Fields F → Fields F
  migrate_snapshot_v1_to_v2 snapshot =
      set_field "hint_evidence_types" (Value.list Values.nil)
        (set_field "schema_version" (Value.int (pos 2)) snapshot)

  abbrev pub is_version : ⦃nums : Numbers F⦄ → Value F → ℤ → Bool
  is_version version n = value_eq version (Value.int n)

  -- `version` is given by `snapshot.get("schema_version")`
  abbrev pub migrate_from : ⦃nums : Numbers F⦄ → Value F → Fields F → Result (Fields F)
  migrate_from Value.null snapshot = raise value_error
  migrate_from version snapshot = do
    raise_if (not (hashable version)) type_error
    raise_if (not (is_version version (pos 1) || is_version version (pos 2))) value_error
    ok (if is_version version (pos 1) then migrate_snapshot_v1_to_v2 snapshot else snapshot)

  unfoldable pub migrate_snapshot_to_current : ⦃nums : Numbers F⦄ → Fields F → Result (Fields F)
  migrate_snapshot_to_current snapshot = elim (lookup_field "schema_version" snapshot) [
    | none ↦ raise value_error
    | some version ↦ migrate_from version snapshot
  ]

  -- every claim's dict has a status
  abbrev pub check_status_key : Value F → Result (Unit {0})
  check_status_key item = do
    value ← subscript_value "value" item
    elim value [
      | Value.mapping d ↦ raise_if (not (has "status" d)) value_error
      | _ ↦ raise type_error
    ]

  abbrev pub restore_next_id : Value F → Result (List (String × ℤ))
  restore_next_id (Value.mapping counters) = restore_counters [] counters
  restore_next_id _ = raise untyped

  -- `snapshot.get("lifecycle_seq", 0)`
  abbrev pub restore_lifecycle_seq : Fields F → Result ℤ
  restore_lifecycle_seq snapshot = elim (lookup_field "lifecycle_seq" snapshot) [
    | none ↦ ok (pos 0)
    | some (Value.int n) ↦ ok n
    | _ ↦ raise untyped
  ]

module _ {F : Type 0} ⦃fl : Floats F⦄ where
  unfoldable pub reconstruct : Fields F → Result (DecodedEngineState F)
  reconstruct snapshot = do
    claim_items ← list_at snapshot "claims"
    for_each check_status_key claim_items
    next_id ← and_then (subscript "next_id" snapshot) restore_next_id
    lifecycle_seq ← restore_lifecycle_seq snapshot
    entities ← and_then (subscript "entities" snapshot) (restore_dict_int entity_from_dict)
    observations ←
        and_then (subscript "observations" snapshot) (restore_dict_int observation_from_dict)
    claims ← and_then (subscript "claims" snapshot) (restore_dict_int claim_from_dict)
    evidences ← and_then (subscript "evidences" snapshot) (restore_dict_int evidence_from_dict)
    relations ← and_then (subscript "relations" snapshot) (restore_dict_int relation_from_dict)
    gaps ← and_then (subscript "gaps" snapshot) (restore_dict_int gap_from_dict)
    rule_definitions ←
        and_then (subscript "rule_definitions" snapshot) (restore_dict_tuple rule_def_from_dict)
    rule_stats ←
        and_then (subscript "rule_stats" snapshot) (restore_dict_tuple rule_stats_from_dict)
    gap_dedup_index ← and_then (subscript "gap_dedup_index" snapshot) restore_dict_tuple4_int
    claim_gap_refs ← and_then (subscript "claim_gap_refs" snapshot) restore_dict_int_set
    gap_resolutions ← and_then (subscript "gap_resolutions" snapshot) restore_dict_int_int
    contradictions ← and_then (subscript "contradictions" snapshot) restore_dict_int_set
    resolved_contradictions ←
        and_then (subscript "resolved_contradictions" snapshot) restore_dict_int_set
    claim_lifecycle_events ←
        and_then (subscript "claim_lifecycle_events" snapshot) restore_dict_int_list_dataclass
    hint_evidence_types ← and_then (subscript "hint_evidence_types" snapshot) int_set
    ok (record {
      next_id = next_id;
      lifecycle_seq = lifecycle_seq;
      entities = entities;
      observations = observations;
      claims = claims;
      evidences = evidences;
      relations = relations;
      gaps = gaps;
      rule_definitions = rule_definitions;
      rule_stats = rule_stats;
      gap_dedup_index = gap_dedup_index;
      claim_gap_refs = claim_gap_refs;
      gap_resolutions = gap_resolutions;
      contradictions = contradictions;
      resolved_contradictions = resolved_contradictions;
      claim_lifecycle_events = claim_lifecycle_events;
      hint_evidence_types = hint_evidence_types;
    })

  unfoldable pub validate_and_decode_snapshot :
      ⦃nums : Numbers F⦄ → Value F → Result (DecodedEngineState F)
  validate_and_decode_snapshot (Value.mapping snapshot) = do
    current ← migrate_snapshot_to_current snapshot
    validate_snapshot_restore_integrity current
    no_key_error (reconstruct current)
  validate_and_decode_snapshot _ = raise type_error
