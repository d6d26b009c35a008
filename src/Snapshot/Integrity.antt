-- ===== src/Snapshot/Integrity.antt =====
-- ragcore/_engine/serialization.py: `_validate_snapshot_restore_integrity`, the references and counters
-- of a snapshot.
use intelligent_rag_framewor.Prelude.{
  ℤ, pos, String, Bool, not, Option, none, some, List, [], ◌∷◌, Result, ok, raise, value_error,
  type_error, and_then, ◌>>=◌, ◌>>◌, raise_if, all, any, ltb_ℤ, int_eq, string_eq, if◌then◌else◌,
  map,
}
use intelligent_rag_framewor.Value.{Value, Fields}
use intelligent_rag_framewor.Value.Comparison.{Numbers, lookup_field, value_eq}
use intelligent_rag_framewor.Snapshot.Arguments.{subscript, subscript_value}
use intelligent_rag_framewor.Snapshot.Stores.{hashable}
use intelligent_rag_framewor.Snapshot.Collections.{
  snapshot_required_keys, max_of, has, list_at, for_each, collect_id_set,
  validate_identity_collection, key_and_value, bucket_members,
}

-- the ids of the collections that others refer to, and whose counters are checked
pub record IdSets : Type 0 where
  pub entities : List ℤ
  pub observations : List ℤ
  pub claims : List ℤ
  pub evidences : List ℤ
  pub relations : List ℤ
  pub gaps : List ℤ

module _ {F : Type 0} where
  unfoldable pub collect_id_sets : Fields F → Result IdSets
  collect_id_sets snapshot = do
    entities ← collect_id_set snapshot "entities"
    observations ← collect_id_set snapshot "observations"
    claims ← collect_id_set snapshot "claims"
    evidences ← collect_id_set snapshot "evidences"
    relations ← collect_id_set snapshot "relations"
    gaps ← collect_id_set snapshot "gaps"
    claim_gap_refs ← collect_id_set snapshot "claim_gap_refs"
    gap_resolutions ← collect_id_set snapshot "gap_resolutions"
    contradictions ← collect_id_set snapshot "contradictions"
    resolved_contradictions ← collect_id_set snapshot "resolved_contradictions"
    claim_lifecycle_events ← collect_id_set snapshot "claim_lifecycle_events"
    ok (record {
      entities = entities;
      observations = observations;
      claims = claims;
      evidences = evidences;
      relations = relations;
      gaps = gaps;
    })

  -- the counter of one kind, against the ids of its collection
  abbrev pub check_counter : Fields F → String → List ℤ → Result (Unit {0})
  check_counter next_id kind ids = elim (lookup_field kind next_id) [
    | none ↦ raise_if (ltb_ℤ (pos 0) (max_of ids)) value_error
    | some counter ↦ elim counter [
      | Value.int n ↦ do
        raise_if (ltb_ℤ n (pos 0)) value_error
        raise_if (ltb_ℤ n (max_of ids)) value_error
      | _ ↦ raise type_error
    ]
  ]

  unfoldable pub check_counters : Fields F → IdSets → Result (Unit {0})
  check_counters snapshot ids = do
    next_id ← subscript "next_id" snapshot
    elim next_id [
      | Value.mapping counters ↦ do
        check_counter counters "entity" ids.entities
        check_counter counters "observation" ids.observations
        check_counter counters "claim" ids.claims
        check_counter counters "evidence" ids.evidences
        check_counter counters "relation" ids.relations
        check_counter counters "gap" ids.gaps
      | _ ↦ raise type_error
    ]

module _ {F : Type 0} ⦃nums : Numbers F⦄ where
  -- `v in ids`, which hashes `v`
  abbrev pub in_ids : Value F → List ℤ → Result Bool
  in_ids v ids =
      if hashable v then ok (any (λ n. value_eq v (Value.int n)) ids) else raise type_error

  -- `if v not in ids: raise ValueError`
  abbrev pub check_in : List ℤ → Value F → Result (Unit {0})
  check_in ids v = do known ← in_ids v ids; raise_if (not known) value_error

  -- the entry's key is the id of its value
  abbrev pub check_own_id : Value F → Result (Unit {0})
  check_own_id item = do
    value ← subscript_value "value" item
    elim value [
      | Value.mapping d ↦ elim (lookup_field "id" d) [
        | none ↦ raise value_error
        | some id ↦ do
          key ← subscript_value "key" item
          raise_if (not (value_eq id key)) value_error
      ]
      | _ ↦ raise type_error
    ]

  abbrev pub check_own_ids : Fields F → String → Result (Unit {0})
  check_own_ids snapshot name = and_then (list_at snapshot name) (for_each check_own_id)

  abbrev pub check_evidence : List ℤ → Value F → Result (Unit {0})
  check_evidence claim_ids item = do
    value ← subscript_value "value" item
    elim value [
      | Value.mapping d ↦ elim (lookup_field "claim_id" d) [
        | none ↦ raise value_error
        | some ev_claim_id ↦ check_in claim_ids ev_claim_id
      ]
      | _ ↦ raise value_error
    ]

  -- an entry of `contradictions` or of `claim_gap_refs`: its key in one set, its members in another
  abbrev pub check_bucket : List ℤ → List ℤ → Value F → Result (Unit {0})
  check_bucket key_ids member_ids item = do
    e ← key_and_value item
    check_in key_ids e.0
    members ← bucket_members e.1
    for_each (check_in member_ids) members

  abbrev pub check_resolution : List ℤ → List ℤ → Value F → Result (Unit {0})
  check_resolution gap_ids evidence_ids item = do
    e ← key_and_value item
    check_in gap_ids e.0
    check_in evidence_ids e.1

  -- `contradictions_index`: the members of each entry, which are checked before
  unfoldable pub index_of : List (Value F) → Result (List (Value F × List (Value F)))
  index_of [] = ok []
  index_of (item ∷ items) = do
    e ← key_and_value item
    members ← bucket_members e.1
    rest ← index_of items
    ok ((e.0, members) ∷ rest)

  unfoldable pub find_bucket : Value F → List (Value F × List (Value F)) → Option (List (Value F))
  find_bucket key [] = none
  find_bucket key ((k, members) ∷ index) =
      if value_eq k key then some members else find_bucket key index

  -- `if v not in registered: raise ValueError`
  abbrev pub check_registered : List (Value F) → Value F → Result (Unit {0})
  check_registered registered v =
      if hashable v
      then raise_if (not (any (λ w. value_eq v w) registered)) value_error
      else raise type_error

  abbrev pub check_resolved : List ℤ → List (Value F × List (Value F)) → Value F → Result (Unit {0})
  check_resolved claim_ids index item = do
    e ← key_and_value item
    check_in claim_ids e.0
    members ← bucket_members e.1
    elim (find_bucket e.0 index) [
      | none ↦ raise value_error
      | some registered ↦ for_each (check_registered registered) members
    ]

  unfoldable pub check_references : Fields F → IdSets → Result (Unit {0})
  check_references snapshot ids = do
    check_own_ids snapshot "claims"
    check_own_ids snapshot "evidences"
    check_own_ids snapshot "gaps"
    evidences ← list_at snapshot "evidences"
    for_each (check_evidence ids.claims) evidences
    contradictions ← list_at snapshot "contradictions"
    for_each (check_bucket ids.claims ids.evidences) contradictions
    index ← index_of contradictions
    refs ← list_at snapshot "claim_gap_refs"
    for_each (check_bucket ids.claims ids.gaps) refs
    resolutions ← list_at snapshot "gap_resolutions"
    for_each (check_resolution ids.gaps ids.evidences) resolutions
    targets ← validate_identity_collection snapshot "gap_dedup_index" 4
    for_each (check_in ids.gaps) (map (λ t. t.1) targets)
    resolved ← list_at snapshot "resolved_contradictions"
    for_each (check_resolved ids.claims index) resolved

  -- the structural checks of the rule collections and of the hint types
  unfoldable pub check_rules : Fields F → Result (Unit {0})
  check_rules snapshot = do
    stats ← validate_identity_collection snapshot "rule_stats" 2
    definitions ← validate_identity_collection snapshot "rule_definitions" 2
    hint_types ← list_at snapshot "hint_evidence_types"
    ok tt

  unfoldable pub validate_snapshot_restore_integrity : Fields F → Result (Unit {0})
  validate_snapshot_restore_integrity snapshot = do
    raise_if (not (all (λ k. has k snapshot) snapshot_required_keys)) value_error
    ids ← collect_id_sets snapshot
    check_references snapshot ids
    check_rules snapshot
    check_counters snapshot ids
