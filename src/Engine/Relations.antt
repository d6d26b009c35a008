-- ===== src/Engine/Relations.antt =====
-- ragcore/_engine/relations.py: cross-kind relations.
use intelligent_rag_framewor.Prelude.{ℤ, not, key_error, int_eq, string_eq}
use intelligent_rag_framewor.Prelude.Dict.{lookup, insert}
use intelligent_rag_framewor.Types.{Relation}
use intelligent_rag_framewor.Engine.State.{
  Call, ◌>>=◌, ◌>>◌, pure, gets, item, modify, fail_if, allocate_id, advance_state_revision,
  id_exists,
}

module _ {F : Type 0} where
  unfoldable pub add_relation : ℤ → ℤ → ℤ → ℤ → ℤ → ℤ → ℤ → Call F ℤ
  unfolding allocate_id advance_state_revision
  add_relation from_kind from_id to_kind to_id relation_type rule_id reason_code = do
    known_from ← id_exists from_kind from_id
    fail_if (not known_from) key_error
    known_to ← id_exists to_kind to_id
    fail_if (not known_to) key_error
    relation_id ← allocate_id "relation"
    modify (λ s. record s {
      relations =
          insert relation_id
            (record {
              id = relation_id;
              from_kind = from_kind;
              from_id = from_id;
              to_kind = to_kind;
              to_id = to_id;
              type = relation_type;
              rule_id = rule_id;
              reason_code = reason_code;
            })
            s.relations;
    })
    advance_state_revision
    pure relation_id

  unfoldable pub get_relation : ℤ → Call F Relation
  get_relation relation_id = do found ← gets (λ s. lookup relation_id s.relations); item found
