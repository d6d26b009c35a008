-- ===== src/Loading/Tree.antt =====
-- ragcore/condition.py: `load_condition_tree`.
use intelligent_rag_framewor.Prelude.{
  String, Bool, true, false, not, ◌&&◌, Option, none, some, List, [], ◌∷◌, Result, ok, raise,
  key_error, value_error, type_error, and_then, ◌>>=◌, ◌>>◌, raise_if, all, any, elem,
  if◌then◌else◌, ◌==◌, string_eq,
}
use intelligent_rag_framewor.Value.{Value, Values, Fields, keys}
use intelligent_rag_framewor.Value.Comparison.{lookup_field}
use intelligent_rag_framewor.Condition.{Predicate, ConditionTree, ConditionTrees}
use intelligent_rag_framewor.Loading.Text.{strip}

abbrev pub valid_ops : List String
valid_ops = "eq" ∷ "ne" ∷ "lt" ∷ "le" ∷ "gt" ∷ "ge" ∷ "contains" ∷ []

abbrev pub valid_combinators : List String
valid_combinators = "all" ∷ "any" ∷ []

abbrev pub rejected_combinators : List String
rejected_combinators = "not" ∷ []

abbrev pub predicate_keys : List String
predicate_keys = "field" ∷ "op" ∷ "value" ∷ []

module _ {F : Type 0} where
  -- some of the names are keys
  abbrev pub meets : List String → Fields F → Bool
  meets names fs = any (λ k. elem k (keys fs)) names

  -- every key is one of the names
  abbrev pub within : List String → Fields F → Bool
  within names fs = all (λ k. elem k names) (keys fs)

  -- a key of a dict that is known to be there
  abbrev pub value_at : String → Fields F → Result (Value F)
  value_at k fs = elim (lookup_field k fs) [ none ↦ raise key_error | some v ↦ ok v ]

  abbrev pub predicate_of : Value F → Value F → Value F → Result (Predicate F)
  predicate_of (Value.str field) op value = do
    raise_if (strip field == "") value_error
    elim op [
      | Value.str name ↦ do
        raise_if (not (elem name valid_ops)) value_error
        ok (record { field = strip field; op = name; value = value })
      | _ ↦ raise type_error
    ]
  predicate_of _ op value = raise type_error

  unfoldable pub load_predicate : Fields F → Result (Predicate F)
  load_predicate raw = do
    field ← value_at "field" raw
    op ← value_at "op" raw
    value ← value_at "value" raw
    predicate_of field op value

  -- the checks on the keys of a node: the combinator's kind, or none for a predicate
  unfoldable pub node_kind : Fields F → Result (Option String)
  node_kind raw =
      if meets rejected_combinators raw
      then raise value_error
      else if meets predicate_keys raw && meets valid_combinators raw
      then raise value_error
      else if meets valid_combinators raw
      then (if all (λ k. elem k (keys raw)) valid_combinators
          then raise value_error
          else let kind = if elem "all" (keys raw) then "all" else "any" in
            if within (kind ∷ []) raw then ok (some kind) else raise value_error)
      else if not (all (λ k. elem k (keys raw)) predicate_keys)
      then raise value_error
      else if not (within predicate_keys raw)
      then raise value_error
      else ok none

  unfoldable mutual
    pub load_condition_tree : Value F → Result (ConditionTree F)
    load_condition_tree (Value.mapping raw) = elim (node_kind raw) [
      | raise e ↦ raise e
      | ok none ↦ and_then (load_predicate raw) (λ p. ok (ConditionTree.predicate p))
      | ok (some kind) ↦
          and_then (load_at kind raw) (λ children. ok (ConditionTree.combinator kind children))
    ]
    load_condition_tree _ = raise type_error

    -- `_load_combinator`: the children at the key
    pub load_at : String → Fields F → Result (ConditionTrees F)
    load_at kind Fields.end = raise key_error
    load_at kind (Fields.field k v fs) = elim (k == kind) [
      | true ↦ load_children v
      | false ↦ load_at kind fs
    ]

    pub load_children : Value F → Result (ConditionTrees F)
    load_children (Value.list vs) = load_each vs
    load_children _ = raise type_error

    pub load_each : Values F → Result (ConditionTrees F)
    load_each Values.nil = ok ConditionTrees.nil
    load_each (Values.cons v vs) = elim (load_condition_tree v) [
      | raise e ↦ raise e
      | ok tree ↦ elim (load_each vs) [
        | raise e ↦ raise e
        | ok trees ↦ ok (ConditionTrees.child tree trees)
      ]
    ]
