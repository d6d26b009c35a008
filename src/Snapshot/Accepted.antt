-- ===== src/Snapshot/Accepted.antt =====
-- What the integrity check of ragcore/_engine/serialization.py guarantees of the dicts that are restored
-- from any snapshot that it accepts.
use intelligent_rag_framewor.Prelude.{
  ◌≡◌, refl, ℤ, String, Bool, true, false, some, Result, ok, List, [], ◌∷◌, arith, HasEq, int_eq,
  string_eq, elem, adjoin, elem-adjoin, Option-cases, Bool-cases, inl, inr, and_then, and_then_inv,
  raise_if, Error,
}
use intelligent_rag_framewor.Prelude.Dict.{Dict, contains, insert, contains-insert}
use intelligent_rag_framewor.Value.{Value, Fields, elements}
use intelligent_rag_framewor.Value.Comparison.{lookup_field}
use intelligent_rag_framewor.Spec.Valid.{Each}
use intelligent_rag_framewor.Spec.Valid.Parts.{Each-insert}
use intelligent_rag_framewor.Snapshot.Arguments.{subscript, subscript_value, int_argument}
use intelligent_rag_framewor.Snapshot.Stores.{restore_items, restore, int_value}
use intelligent_rag_framewor.Snapshot.Collections.{list_at, for_each, new_id, collect_ids}

pub raise_if_inv : (b : Bool) (e : Error) → raise_if b e ≡ ok tt → b ≡ false
raise_if_inv true e h = ground arith
raise_if_inv false e h = refl

module _ {F : Type 0} where
  -- A list that is checked is the list that is restored.
  pub list_at-restore :
      {K V : Type 0} ⦃e : HasEq K⦄ (snapshot : Fields F) (name : String)
      (key_of : Value F → Result K) (from_dict : Value F → Result V) (items : List (Value F))
      (d : Dict K V)
      → list_at snapshot name ≡ ok items
      → and_then (subscript name snapshot) (restore key_of from_dict) ≡ ok d
      → restore_items key_of from_dict [] items ≡ ok d
  unfolding elements
  list_at-restore snapshot name key_of from_dict items d listed restored =
      elim (Option-cases (lookup_field name snapshot)) [
        | inl missing ↦ ground arith
        | inr (Value.list vs, found) ↦ ground arith
        | inr (Value.null, found) ↦ ground arith
        | inr (Value.bool _, found) ↦ ground arith
        | inr (Value.int _, found) ↦ ground arith
        | inr (Value.float _, found) ↦ ground arith
        | inr (Value.str _, found) ↦ ground arith
        | inr (Value.tuple _, found) ↦ ground arith
        | inr (Value.mapping _, found) ↦ ground arith
      ]

  pub int_value_inv : (v : Value F) (n : ℤ) → int_value v ≡ ok n → v ≡ Value.int n
  int_value_inv (Value.int m) n h = ground arith
  int_value_inv Value.null n h = ground arith
  int_value_inv (Value.bool _) n h = ground arith
  int_value_inv (Value.float _) n h = ground arith
  int_value_inv (Value.str _) n h = ground arith
  int_value_inv (Value.list _) n h = ground arith
  int_value_inv (Value.tuple _) n h = ground arith
  int_value_inv (Value.mapping _) n h = ground arith

  pub int_argument_inv :
      (k : String) (d : Fields F) (n : ℤ)
      → int_argument k d ≡ ok n
      → lookup_field k d ≡ some (Value.int n)
  int_argument_inv k d n h = elim (Option-cases (lookup_field k d)) [
    | inl missing ↦ ground arith
    | inr (Value.int m, found) ↦ ground arith
    | inr (Value.null, found) ↦ ground arith
    | inr (Value.bool _, found) ↦ ground arith
    | inr (Value.float _, found) ↦ ground arith
    | inr (Value.str _, found) ↦ ground arith
    | inr (Value.list _, found) ↦ ground arith
    | inr (Value.tuple _, found) ↦ ground arith
    | inr (Value.mapping _, found) ↦ ground arith
  ]

  module _ {K V : Type 0} ⦃e : HasEq K⦄ (key_of : Value F → Result K)
      (from_dict : Value F → Result V) (check : Value F → Result (Unit {0})) (P : K → V → Type 0)
      (holds : (item key value : Value F) (k : K) (x : V)
        → subscript_value "key" item ≡ ok key
        → key_of key ≡ ok k
        → subscript_value "value" item ≡ ok value
        → from_dict value ≡ ok x
        → check item ≡ ok tt
        → P k x) where
    -- What a check of each entry gives holds of the entries of the restored dict.
    pub checked-Each :
        (acc : Dict K V) (items : List (Value F)) (d : Dict K V)
        → for_each check items ≡ ok tt
        → restore_items key_of from_dict acc items ≡ ok d
        → Each P acc
        → Each P d
    unfolding for_each restore_items
    checked-Each acc [] d checked restored h = let same : d ≡ acc = ground arith in rw same h
    checked-Each acc (item ∷ items) d checked restored h =
        let (_, own, rest) = and_then_inv (check item) (λ _. for_each check items) tt checked in
        let (key, key_read, a) = and_then_inv (subscript_value "key" item) _ d restored in
        let (k, k_read, b) = and_then_inv (key_of key) _ d a in
        let (value, value_read, c) = and_then_inv (subscript_value "value" item) _ d b in
        let (x, x_read, tail) = and_then_inv (from_dict value) _ d c in
        checked-Each (insert k x acc) items d rest tail
          (Each-insert P k x acc h (holds item key value k x key_read k_read value_read x_read own))

  new_id_inv :
      (ids : List ℤ) (item : Value F) (n : ℤ)
      → new_id ids item ≡ ok n
      → subscript_value "key" item ≡ ok (Value.int n)
  new_id_inv ids (Value.mapping m) n h = elim (Option-cases (lookup_field "value" m)) [
    | inl missing ↦ elim (Option-cases (lookup_field "key" m)) [
      | inl missing_key ↦ ground arith
      | inr (key, found) ↦ ground arith
    ]
    | inr (value, has) ↦ elim (Option-cases (lookup_field "key" m)) [
      | inl missing ↦ ground arith
      | inr (Value.int k, found) ↦ elim (Bool-cases (elem k ids)) [
        | inl known ↦ ground arith
        | inr new ↦ ground arith
      ]
      | inr (Value.null, found) ↦ ground arith
      | inr (Value.bool _, found) ↦ ground arith
      | inr (Value.float _, found) ↦ ground arith
      | inr (Value.str _, found) ↦ ground arith
      | inr (Value.list _, found) ↦ ground arith
      | inr (Value.tuple _, found) ↦ ground arith
      | inr (Value.mapping _, found) ↦ ground arith
    ]
  ]
  new_id_inv ids Value.null n h = ground arith
  new_id_inv ids (Value.bool _) n h = ground arith
  new_id_inv ids (Value.int _) n h = ground arith
  new_id_inv ids (Value.float _) n h = ground arith
  new_id_inv ids (Value.str _) n h = ground arith
  new_id_inv ids (Value.list _) n h = ground arith
  new_id_inv ids (Value.tuple _) n h = ground arith

  -- The ids that are collected are the keys of the restored dict.
  pub collected_keys :
      {V : Type 0} (from_dict : Value F → Result V) (acc : List ℤ) (dacc : Dict ℤ V)
      (items : List (Value F)) (ids : List ℤ) (d : Dict ℤ V)
      → collect_ids acc items ≡ ok ids
      → restore_items int_value from_dict dacc items ≡ ok d
      → ((k : ℤ) → elem k acc ≡ contains k dacc)
      → (k : ℤ) → elem k ids ≡ contains k d
  unfolding collect_ids restore_items
  collected_keys from_dict acc dacc [] ids d collected restored h k =
      let a : ids ≡ acc = ground arith in let b : d ≡ dacc = ground arith in rw (a, b) (h k)
  collected_keys from_dict acc dacc (item ∷ items) ids d collected restored h k =
      let (n, n_read, more) = and_then_inv (new_id acc item) _ ids collected in
      let (key, key_read, a) = and_then_inv (subscript_value "key" item) _ d restored in
      let (j, j_read, b) = and_then_inv (int_value key) _ d a in
      let (value, value_read, c) = and_then_inv (subscript_value "value" item) _ d b in
      let (x, x_read, tail) = and_then_inv (from_dict value) _ d c in
      let same : j ≡ n = ground (arith, new_id_inv acc item n n_read, int_value_inv key j j_read) in
      collected_keys from_dict (adjoin n acc) (insert j x dacc) items ids d more tail
        (λ i. rw same (ground (arith, elem-adjoin i n acc, contains-insert n i x dacc, h i))) k
