-- ===== src/Snapshot/Stores.antt =====
-- ragcore/_engine/serialization.py: the dicts that the lists of a snapshot denote.
use intelligent_rag_framewor.Prelude.{
  ℤ, String, Bool, true, false, none, some, List, [], ◌∷◌, Result, ok, raise, type_error, untyped,
  and_then, ◌>>=◌, adjoin, if◌then◌else◌, ◌==◌, ◌&&◌, int_eq, string_eq, pair_eq, quad_eq, HasEq,
}
use intelligent_rag_framewor.Prelude.Dict.{Dict, insert}
use intelligent_rag_framewor.Value.{Value, Values, Fields, elements}
use intelligent_rag_framewor.Types.{ClaimLifecycleEvent}
use intelligent_rag_framewor.Snapshot.Arguments.{subscript_value}
use intelligent_rag_framewor.Snapshot.Restore.{event_from_dict}

module _ {F : Type 0} where
  -- what is iterated of a value whose members are then read as dicts; no text has such members
  abbrev pub iterate : Value F → Result (List (Value F))
  iterate (Value.str t) = if t == "" then ok [] else raise type_error
  iterate v = elim (elements v) [ none ↦ raise type_error | some vs ↦ ok vs ]

  -- hash(v) is defined
  unfoldable mutual
    pub hashable : Value F → Bool
    hashable (Value.list _) = false
    hashable (Value.mapping _) = false
    hashable (Value.tuple vs) = all_hashable vs
    hashable _ = true

    pub all_hashable : Values F → Bool
    all_hashable Values.nil = true
    all_hashable (Values.cons v vs) = hashable v && all_hashable vs

  -- `set(vs)` into a set of ints
  unfoldable pub set_of : List ℤ → List (Value F) → Result (List ℤ)
  set_of acc [] = ok acc
  set_of acc (Value.int n ∷ vs) = set_of (adjoin n acc) vs
  set_of acc (v ∷ vs) = if hashable v then raise untyped else raise type_error

  -- `set(v)`
  abbrev pub int_set : Value F → Result (List ℤ)
  int_set (Value.str t) = if t == "" then ok [] else raise untyped
  int_set v = elim (elements v) [ none ↦ raise type_error | some vs ↦ set_of [] vs ]

  abbrev pub int_value : Value F → Result ℤ
  int_value (Value.int n) = ok n
  int_value _ = raise untyped

  -- `tuple(key)`
  abbrev pub pair_value : Value F → Result (ℤ × ℤ)
  pair_value (Value.list (Values.cons (Value.int a) (Values.cons (Value.int b) Values.nil))) =
      ok (a, b)
  pair_value _ = raise untyped

  abbrev pub quad_value : Value F → Result (ℤ × ℤ × ℤ × ℤ)
  quad_value
        (Value.list (
          Values.cons (Value.int a) (
            Values.cons
              (Value.int b)
              (Values.cons (Value.int c) (Values.cons (Value.int d) Values.nil))))) =
      ok (a, b, c, d)
  quad_value _ = raise untyped

  -- `[from_dict(d) for d in vs]`
  unfoldable pub restore_each :
      {V : Type 0} → (Value F → Result V) → List (Value F) → Result (List V)
  restore_each from_dict [] = ok []
  restore_each from_dict (v ∷ vs) = do x ← from_dict v; xs ← restore_each from_dict vs; ok (x ∷ xs)

  abbrev pub events_from_list : Value F → Result (List ClaimLifecycleEvent)
  events_from_list v = and_then (iterate v) (restore_each event_from_dict)

  module _ {K V : Type 0} ⦃e : HasEq K⦄ (key_of : Value F → Result K)
      (from_dict : Value F → Result V) where
    -- `{key_of(item["key"]): from_dict(item["value"]) for item in items}`
    unfoldable pub restore_items : Dict K V → List (Value F) → Result (Dict K V)
    restore_items acc [] = ok acc
    restore_items acc (item ∷ items) = do
      key ← subscript_value "key" item
      k ← key_of key
      value ← subscript_value "value" item
      v ← from_dict value
      restore_items (insert k v acc) items

    abbrev pub restore : Value F → Result (Dict K V)
    restore items = and_then (iterate items) (restore_items [])

  abbrev pub restore_dict_int : {V : Type 0} → (Value F → Result V) → Value F → Result (Dict ℤ V)
  restore_dict_int from_dict items = restore int_value from_dict items

  abbrev pub restore_dict_tuple :
      {V : Type 0} → (Value F → Result V) → Value F → Result (Dict (ℤ × ℤ) V)
  restore_dict_tuple from_dict items = restore pair_value from_dict items

  abbrev pub restore_dict_tuple4_int : Value F → Result (Dict (ℤ × ℤ × ℤ × ℤ) ℤ)
  restore_dict_tuple4_int items = restore quad_value int_value items

  abbrev pub restore_dict_int_set : Value F → Result (Dict ℤ (List ℤ))
  restore_dict_int_set items = restore int_value int_set items

  abbrev pub restore_dict_int_int : Value F → Result (Dict ℤ ℤ)
  restore_dict_int_int items = restore int_value int_value items

  abbrev pub restore_dict_int_list_dataclass : Value F → Result (Dict ℤ (List ClaimLifecycleEvent))
  restore_dict_int_list_dataclass items = restore int_value events_from_list items

  -- `dict(next_id)`, of counters
  unfoldable pub restore_counters : Dict String ℤ → Fields F → Result (Dict String ℤ)
  restore_counters acc Fields.end = ok acc
  restore_counters acc (Fields.field k (Value.int n) fs) = restore_counters (insert k n acc) fs
  restore_counters acc (Fields.field k _ fs) = raise untyped
