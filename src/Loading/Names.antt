-- ===== src/Loading/Names.antt =====
-- The names of a rule file (ragcore/rule_compile.py, ragcore/rule_output.py and ragcore/rule_gap.py), and
-- the numbers that the tables have for them.
use intelligent_rag_framewor.Prelude.{
  ℤ, String, ◌≡◌, refl, inl, inr, some, ok, arith, int_eq, string_eq, Option-cases, and_then_inv,
}
use intelligent_rag_framewor.Prelude.Dict.{Dict, lookup}
use intelligent_rag_framewor.Value.{Value, Fields}
use intelligent_rag_framewor.Value.Comparison.{lookup_field}
use intelligent_rag_framewor.Loading.Tree.{value_at}
use intelligent_rag_framewor.Loading.Compile.{
  name_number, claim_block, lookup_str, block_at, optional_block,
}

module _ {F : Type 0} where
  -- a text that the table has a number for
  abbrev pub Names : Dict String ℤ → Value F → ℤ → Type 0
  Names table v n = (name : String) × (v ≡ Value.str name) × (lookup name table ≡ some n)

  -- a field that holds such a text
  abbrev pub FieldNames : Fields F → String → Dict String ℤ → ℤ → Type 0
  FieldNames block field table n =
      (v : Value F) × (lookup_field field block ≡ some v) × Names table v n

  -- the claim's block under the output's block
  abbrev pub HasClaim : Fields F → Fields F → Type 0
  HasClaim raw claim =
      (output : Fields F) × (lookup_field "output" raw ≡ some (Value.mapping output))
      × (lookup_field "claim" output ≡ some (Value.mapping claim))

  pub name_number_inv :
      (table : Dict String ℤ) (v : Value F) (n : ℤ) → name_number table v ≡ ok n → Names table v n
  name_number_inv table (Value.str name) n h =
      (name, refl, ground (arith, Option-cases (lookup name table)))
  name_number_inv table Value.null n h = absurd (ground arith)
  name_number_inv table (Value.bool _) n h = absurd (ground arith)
  name_number_inv table (Value.int _) n h = absurd (ground arith)
  name_number_inv table (Value.float _) n h = absurd (ground arith)
  name_number_inv table (Value.list _) n h = absurd (ground arith)
  name_number_inv table (Value.tuple _) n h = absurd (ground arith)
  name_number_inv table (Value.mapping _) n h = absurd (ground arith)

  pub named_number :
      (table : Dict String ℤ) (v : Value F) (n : ℤ) → Names table v n → name_number table v ≡ ok n
  named_number table v n (name, same, found) = ground arith

  pub value_at_inv :
      (field : String) (block : Fields F) (v : Value F)
      → value_at field block ≡ ok v
      → lookup_field field block ≡ some v
  value_at_inv field block v h = ground (arith, Option-cases (lookup_field field block))

  pub lookup_str_inv :
      (block : Fields F) (field : String) (table : Dict String ℤ) (n : ℤ)
      → lookup_str block field table ≡ ok n
      → FieldNames block field table n
  lookup_str_inv block field table n h =
      let (v, read, named) = and_then_inv (value_at field block) (name_number table) n h in
      (v, value_at_inv field block v read, name_number_inv table v n named)

  named_field :
      (block : Fields F) (field : String) (table : Dict String ℤ) (n : ℤ)
      → FieldNames block field table n
      → lookup_str block field table ≡ ok n
  named_field block field table n (v, found, named) = ground (arith, named_number table v n named)

  pub block_at_inv :
      (name : String) (fs block : Fields F)
      → block_at name fs ≡ ok block
      → lookup_field name fs ≡ some (Value.mapping block)
  block_at_inv name fs block h = elim (Option-cases (lookup_field name fs)) [
    | inl missing ↦ absurd (ground arith)
    | inr (Value.mapping m, found) ↦ ground arith
    | inr (Value.null, found) ↦ absurd (ground arith)
    | inr (Value.bool _, found) ↦ absurd (ground arith)
    | inr (Value.int _, found) ↦ absurd (ground arith)
    | inr (Value.float _, found) ↦ absurd (ground arith)
    | inr (Value.str _, found) ↦ absurd (ground arith)
    | inr (Value.list _, found) ↦ absurd (ground arith)
    | inr (Value.tuple _, found) ↦ absurd (ground arith)
  ]

  optional_block_inv :
      (name : String) (fs block : Fields F)
      → optional_block name fs ≡ some block
      → lookup_field name fs ≡ some (Value.mapping block)
  optional_block_inv name fs block h = elim (Option-cases (lookup_field name fs)) [
    | inl missing ↦ absurd (ground arith)
    | inr (Value.mapping m, found) ↦ ground arith
    | inr (Value.null, found) ↦ absurd (ground arith)
    | inr (Value.bool _, found) ↦ absurd (ground arith)
    | inr (Value.int _, found) ↦ absurd (ground arith)
    | inr (Value.float _, found) ↦ absurd (ground arith)
    | inr (Value.str _, found) ↦ absurd (ground arith)
    | inr (Value.list _, found) ↦ absurd (ground arith)
    | inr (Value.tuple _, found) ↦ absurd (ground arith)
  ]

  pub claim_block_inv : (raw claim : Fields F) → claim_block raw ≡ some claim → HasClaim raw claim
  claim_block_inv raw claim h = elim (Option-cases (optional_block "output" raw)) [
    | inl missing ↦ absurd (ground arith)
    | inr (output, found) ↦ (
      output,
      optional_block_inv "output" raw output found,
      optional_block_inv "claim" output claim (ground arith),
    )
  ]

  pub claim_block_at : (raw claim : Fields F) → HasClaim raw claim → claim_block raw ≡ some claim
  claim_block_at raw claim (output, outer, inner) = ground arith
