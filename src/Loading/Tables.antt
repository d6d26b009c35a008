-- ===== src/Loading/Tables.antt =====
-- What the import-time checks of ragcore/rule_compile.py, ragcore/rule_output.py and ragcore/rule_gap.py
-- guarantee of a table.
use intelligent_rag_framewor.Prelude.{
  ℤ, String, ◌≡◌, refl, Bool, true, false, List, [], ◌∷◌, ok, arith, ◌==◌, int_eq, string_eq, elem,
  Result-cases, Bool-cases, inl, inr,
}
use intelligent_rag_framewor.Value.{Value}
use intelligent_rag_framewor.Loading.Text.{strip}
use intelligent_rag_framewor.Loading.Maps.{
  has_duplicates, validate_entry, validate_entries, validate_map, validate_rule_id_map,
  validate_uint16_map, validate_claim_status_map, is_uint16, is_allowed_status,
}

abbrev pub IsDistinct : List ℤ → Type 0
IsDistinct [] = Unit
IsDistinct (n ∷ ns) = (elem n ns ≡ false) × IsDistinct ns

distinct_lem : (ns : List ℤ) → has_duplicates ns ≡ false → IsDistinct ns
unfolding has_duplicates
distinct_lem [] h = tt
distinct_lem (n ∷ ns) h = (ground arith, distinct_lem ns (ground arith))

module _ {F : Type 0} where
  -- a name that is not blank, and a number that passes the test
  abbrev pub IsEntry : (ℤ → Bool) → Value F × Value F → ℤ → Type 0
  IsEntry test e n =
      ((name : String) × (e.0 ≡ Value.str name) × ((strip name == "") ≡ false))
      × (e.1 ≡ Value.int n)
      × (test n ≡ true)

  -- The table holds the numbers, in order.
  abbrev pub Holds : (ℤ → Bool) → List (Value F × Value F) → List ℤ → Type 0
  Holds test [] [] = Unit
  Holds test [] (_ ∷ _) = ⊥
  Holds test (_ ∷ _) [] = ⊥
  Holds test (e ∷ table) (n ∷ ns) = IsEntry test e n × Holds test table ns

  entry_lem :
      (test : ℤ → Bool) (a b : Value F) (n : ℤ)
      → validate_entry test a b ≡ ok n
      → IsEntry test (a, b) n
  entry_lem test (Value.str name) (Value.int m) n h = elim (Bool-cases (strip name == "")) [
    | inl blank ↦ absurd (ground arith)
    | inr full ↦ elim (Bool-cases (test m)) [
      | inr fails ↦ absurd (ground arith)
      | inl passes ↦ let e : n ≡ m = ground arith in rw e ((name, refl, full), refl, passes)
    ]
  ]
  entry_lem test Value.null b n h = absurd (ground arith)
  entry_lem test (Value.bool _) b n h = absurd (ground arith)
  entry_lem test (Value.int _) b n h = absurd (ground arith)
  entry_lem test (Value.float _) b n h = absurd (ground arith)
  entry_lem test (Value.list _) b n h = absurd (ground arith)
  entry_lem test (Value.tuple _) b n h = absurd (ground arith)
  entry_lem test (Value.mapping _) b n h = absurd (ground arith)
  entry_lem test (Value.str name) Value.null n h = absurd (ground arith)
  entry_lem test (Value.str name) (Value.bool _) n h = absurd (ground arith)
  entry_lem test (Value.str name) (Value.str _) n h = absurd (ground arith)
  entry_lem test (Value.str name) (Value.float _) n h = absurd (ground arith)
  entry_lem test (Value.str name) (Value.list _) n h = absurd (ground arith)
  entry_lem test (Value.str name) (Value.tuple _) n h = absurd (ground arith)
  entry_lem test (Value.str name) (Value.mapping _) n h = absurd (ground arith)

  entries_lem :
      (test : ℤ → Bool) (table : List (Value F × Value F)) (ns : List ℤ)
      → validate_entries test table ≡ ok ns
      → Holds test table ns
  unfolding validate_entries
  entries_lem test [] ns h = let e : ns ≡ [] = ground arith in rw e tt
  entries_lem test ((a, b) ∷ table) ns h = elim (Result-cases (validate_entry test a b)) [
    | inr (e, failed) ↦ absurd (ground arith)
    | inl (n, read) ↦ elim (Result-cases (validate_entries test table)) [
      | inr (e, failed) ↦ absurd (ground arith)
      | inl (rest, reads) ↦
          let e : ns ≡ n ∷ rest = ground arith in
          rw e (entry_lem test a b n read, entries_lem test table rest reads)
    ]
  ]

  abbrev pub IsTable : (ℤ → Bool) → List (Value F × Value F) → Type 0
  IsTable test table = (ns : List ℤ) × Holds test table ns × IsDistinct ns

  map_lem :
      (test : ℤ → Bool) (table : List (Value F × Value F))
      → validate_map test table ≡ ok tt
      → IsTable test table
  map_lem test table h = elim (Result-cases (validate_entries test table)) [
    | inr (e, failed) ↦ absurd (ground arith)
    | inl (ns, read) ↦ (ns, entries_lem test table ns read, distinct_lem ns (ground arith))
  ]

  -- A table that an import-time check accepts has names that are not blank and numbers that are ints,
  -- no two the same: from 1 to 65535 for rule ids and for the uint16 tables, and one of candidate,
  -- confirmed and refuted for claim statuses.
  pub validate_lem :
      (table : List (Value F × Value F))
      → (validate_rule_id_map table ≡ ok tt → IsTable is_uint16 table)
        × (validate_uint16_map table ≡ ok tt → IsTable is_uint16 table)
        × (validate_claim_status_map table ≡ ok tt → IsTable is_allowed_status table)
  unfolding validate_rule_id_map validate_uint16_map validate_claim_status_map
  validate_lem table =
      (map_lem is_uint16 table, map_lem is_uint16 table, map_lem is_allowed_status table)
