-- ===== src/Snapshot/Arguments.antt =====
-- ragcore/_engine/serialization.py: the data classes and dicts that a snapshot's values denote. Python
-- does not check the declared types of a data class's fields; a value of another type is kept there,
-- which is `untyped` here.
use intelligent_rag_framewor.Prelude.{
  ℤ, pos, String, not, Option, none, some, List, Result, ok, raise, key_error, value_error,
  type_error, untyped, ◌>>=◌, raise_if, all, elem, if◌then◌else◌, ◌==◌, ◌||◌, ◌&&◌, leb_ℤ, int_eq,
  string_eq,
}
use intelligent_rag_framewor.Value.{Value, Values, Fields, keys}
use intelligent_rag_framewor.Value.Comparison.{lookup_field}
use intelligent_rag_framewor.Floats.{Floats}
use intelligent_rag_framewor.Types.{ScoreValue, score_value}

module _ {F : Type 0} where
  -- `d[k]` on a dict
  abbrev pub subscript : String → Fields F → Result (Value F)
  subscript k d = elim (lookup_field k d) [ none ↦ raise key_error | some v ↦ ok v ]

  -- `v[k]` with a text `k`
  abbrev pub subscript_value : String → Value F → Result (Value F)
  subscript_value k (Value.mapping d) = subscript k d
  subscript_value k _ = raise type_error

  -- `dict(v)`; a dict made of a sequence of pairs is left out
  abbrev pub dict_copy : Value F → Result (Fields F)
  dict_copy (Value.mapping d) = ok d
  dict_copy (Value.list Values.nil) = ok Fields.end
  dict_copy (Value.tuple Values.nil) = ok Fields.end
  dict_copy (Value.list _) = raise untyped
  dict_copy (Value.tuple _) = raise untyped
  dict_copy (Value.str t) = if t == "" then ok Fields.end else raise value_error
  dict_copy _ = raise type_error

  -- `X(**d)` for a data class: every required field, and no other than its fields
  abbrev pub arguments : List String → List String → Fields F → Result (Unit {0})
  arguments required optional d =
      raise_if
        (not (
          all (λ k. elem k (keys d)) required
          && all (λ k. elem k required || elem k optional) (keys d)))
        type_error

  abbrev pub int_argument : String → Fields F → Result ℤ
  int_argument k d = elim (lookup_field k d) [ some (Value.int n) ↦ ok n | _ ↦ raise untyped ]

  -- a field with the default 0
  abbrev pub int_argument_or_zero : String → Fields F → Result ℤ
  int_argument_or_zero k d = elim (lookup_field k d) [
    | none ↦ ok (pos 0)
    | some (Value.int n) ↦ ok n
    | _ ↦ raise untyped
  ]

  abbrev pub str_argument : String → Fields F → Result String
  str_argument k d = elim (lookup_field k d) [ some (Value.str t) ↦ ok t | _ ↦ raise untyped ]

  -- `X(**v)` wants a mapping
  abbrev pub unpacked : Value F → Result (Fields F)
  unpacked (Value.mapping d) = ok d
  unpacked _ = raise type_error

module _ {F : Type 0} ⦃fl : Floats F⦄ where
  -- `ScoreValue(value=v)`: `0.0 <= v <= 1.0` on any value
  abbrev pub make_score : Value F → Result (ScoreValue F)
  unfolding score_value
  make_score (Value.float x) = score_value x
  make_score (Value.int n) =
      if leb_ℤ (pos 0) n && leb_ℤ n (pos 1) then raise untyped else raise value_error
  make_score (Value.bool _) = raise untyped
  make_score _ = raise type_error

  abbrev pub sv_from_dict : Value F → Result (Option (ScoreValue F))
  sv_from_dict Value.null = ok none
  sv_from_dict v = do value ← subscript_value "value" v; score ← make_score value; ok (some score)

-- a field that holds a score, where None is no score
abbrev pub score_argument : {F : Type 0} → Option (ScoreValue F) → Result (ScoreValue F)
score_argument none = raise untyped
score_argument (some sv) = ok sv
