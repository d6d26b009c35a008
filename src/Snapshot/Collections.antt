-- ===== src/Snapshot/Collections.antt =====
-- ragcore/_engine/serialization.py: the checks on the structure of a snapshot's collections.
use intelligent_rag_framewor.Prelude.{
  ℤ, pos, ℕ, String, Bool, true, false, none, some, is_some, List, [], ◌∷◌, Result, ok, raise,
  value_error, type_error, and_then, ◌>>=◌, ◌>>◌, raise_if, elem, adjoin, if◌then◌else◌, ◌==◌, ◌&&◌,
  eqb, length, ltb_ℤ, int_eq, string_eq, HasEq, eqb_ℤ_iff, ◌↔◌, ◌≡◌, arith,
}
use intelligent_rag_framewor.Value.{Value, Fields, to_list}
use intelligent_rag_framewor.Value.Comparison.{lookup_field}
use intelligent_rag_framewor.Snapshot.Arguments.{subscript}

abbrev pub snapshot_required_keys : List String
snapshot_required_keys =
    "schema_version" ∷ "next_id" ∷ "lifecycle_seq" ∷ "entities" ∷ "observations" ∷ "claims"
    ∷ "evidences" ∷ "relations" ∷ "gaps" ∷ "rule_definitions" ∷ "rule_stats" ∷ "gap_dedup_index"
    ∷ "claim_gap_refs" ∷ "gap_resolutions" ∷ "contradictions" ∷ "resolved_contradictions"
    ∷ "claim_lifecycle_events" ∷ "hint_evidence_types" ∷ []

abbrev pub ints_beq : List ℤ → List ℤ → Bool
ints_beq [] [] = true
ints_beq (a ∷ as_) (b ∷ bs) = a == b && ints_beq as_ bs
ints_beq _ _ = false

pub ints_beq_iff : (xs ys : List ℤ) → (ints_beq xs ys ≡ true) ↔ (xs ≡ ys)
ints_beq_iff [] [] = ground arith
ints_beq_iff (a ∷ xs) [] = ground arith
ints_beq_iff [] (b ∷ ys) = ground arith
ints_beq_iff (a ∷ xs) (b ∷ ys) = ground (arith, ints_beq_iff xs ys, eqb_ℤ_iff a b)

instance abbrev pub ints_eq : HasEq (List ℤ)
ints_eq = record { test = ints_beq; test_iff = ints_beq_iff }

-- `max(ids) if ids else 0`
unfoldable pub max_of : List ℤ → ℤ
max_of [] = pos 0
max_of (n ∷ []) = n
max_of (n ∷ ns) = let rest = max_of ns in if ltb_ℤ n rest then rest else n

module _ {F : Type 0} where
  abbrev pub has : String → Fields F → Bool
  has k d = is_some (lookup_field k d)

  abbrev pub exact_int : Value F → Bool
  exact_int (Value.int _) = true
  exact_int _ = false

  -- `snapshot[name]`, which must be a list
  abbrev pub list_at : Fields F → String → Result (List (Value F))
  list_at snapshot name = do
    items ← subscript name snapshot
    elim items [ Value.list vs ↦ ok (to_list vs) | _ ↦ raise type_error ]

  -- `for item in items: check(item)`
  unfoldable pub for_each : (Value F → Result (Unit {0})) → List (Value F) → Result (Unit {0})
  for_each check [] = ok tt
  for_each check (item ∷ items) = do check item; for_each check items

  -- the key of one entry of an int-keyed collection, with the ids so far
  abbrev pub new_id : List ℤ → Value F → Result ℤ
  new_id ids (Value.mapping item) = elim (lookup_field "key" item) [
    | none ↦ raise value_error
    | some key ↦ elim (lookup_field "value" item) [
      | none ↦ raise value_error
      | some value ↦ elim key [
        | Value.int n ↦ if elem n ids then raise value_error else ok n
        | _ ↦ raise type_error
      ]
    ]
  ]
  new_id ids _ = raise type_error

  unfoldable pub collect_ids : List ℤ → List (Value F) → Result (List ℤ)
  collect_ids ids [] = ok ids
  collect_ids ids (item ∷ items) = do n ← new_id ids item; collect_ids (adjoin n ids) items

  abbrev pub collect_id_set : Fields F → String → Result (List ℤ)
  collect_id_set snapshot name = and_then (list_at snapshot name) (collect_ids [])

  -- the components of a logical key: exact ints
  abbrev pub key_components : List (Value F) → Result (List ℤ)
  key_components [] = ok []
  key_components (Value.int n ∷ vs) = and_then (key_components vs) (λ ns. ok (n ∷ ns))
  key_components (_ ∷ vs) = raise type_error

  -- an entry's key and value
  abbrev pub key_and_value : Value F → Result (Value F × Value F)
  key_and_value (Value.mapping item) = elim (lookup_field "key" item) [
    | none ↦ raise value_error
    | some key ↦ elim (lookup_field "value" item) [
      | none ↦ raise value_error
      | some value ↦ ok (key, value)
    ]
  ]
  key_and_value _ = raise value_error

  abbrev pub logical_key : ℕ → Value F → Result (List ℤ)
  logical_key arity (Value.list vs) =
      if eqb (length (to_list vs)) arity then key_components (to_list vs) else raise value_error
  logical_key arity _ = raise type_error

  unfoldable pub identity_entries :
      ℕ → List (List ℤ) → List (Value F) → Result (List (List ℤ × Value F))
  identity_entries arity seen [] = ok []
  identity_entries arity seen (item ∷ items) = do
    e ← key_and_value item
    logical ← logical_key arity e.0
    raise_if (elem logical seen) value_error
    rest ← identity_entries arity (adjoin logical seen) items
    ok ((logical, e.1) ∷ rest)

  abbrev pub validate_identity_collection : Fields F → String → ℕ → Result (List (List ℤ × Value F))
  validate_identity_collection snapshot name arity =
      and_then (list_at snapshot name) (identity_entries arity [])

  -- the members of a list or a tuple
  abbrev pub bucket_members : Value F → Result (List (Value F))
  bucket_members (Value.list vs) = ok (to_list vs)
  bucket_members (Value.tuple vs) = ok (to_list vs)
  bucket_members _ = raise type_error
