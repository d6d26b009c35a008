-- ===== src/Loading/Header.antt =====
-- ragcore/rule_loader.py
use intelligent_rag_framewor.Prelude.{
  ℤ, pos, String, not, ◌&&◌, none, some, Result, ok, raise, value_error, type_error, ◌>>=◌, ◌>>◌,
  raise_if, if◌then◌else◌, ◌==◌, int_eq, string_eq, leb_ℤ, is_some, ltb_ℤ, Bool, overflow_error,
  ◌+ℤ◌, ◌^◌, ◌-◌,
}
use intelligent_rag_framewor.Floats.{Floats}
use intelligent_rag_framewor.Types.{ScoreValue, score_value}
use intelligent_rag_framewor.Value.{Value, Fields}
use intelligent_rag_framewor.Value.Comparison.{lookup_field}
use intelligent_rag_framewor.Condition.{ConditionTree}
use intelligent_rag_framewor.Loading.Text.{strip}
use intelligent_rag_framewor.Loading.Tree.{value_at, load_condition_tree}

abbrev pub version_min : ℤ
version_min = pos 1

abbrev pub version_max : ℤ
version_max = pos 65535

pub record RuleSpec (F : Type 0) : Type 0 where
  pub id : String
  pub version : ℤ
  pub maturity : String
  pub prior_confidence : ScoreValue F
  pub raw : Fields F

module _ {F : Type 0} where
  abbrev pub require_field : Fields F → String → Result (Unit {0})
  require_field d name = raise_if (not (is_some (lookup_field name d))) value_error

  -- a text, without the blanks around it, which may not be empty
  abbrev pub stripped_text : Value F → Result String
  stripped_text (Value.str text) = if strip text == "" then raise value_error else ok (strip text)
  stripped_text _ = raise type_error

  abbrev pub version_number : Value F → Result ℤ
  version_number (Value.int n) =
      if leb_ℤ version_min n && leb_ℤ n version_max then ok n else raise value_error
  version_number _ = raise type_error

-- an int that `float` rounds to a double: from 2 ** 1024 - 2 ** 970 up it is too large
unfoldable pub is_float_range : ℤ → Bool
is_float_range n =
    ltb_ℤ n (pos (2 ^ 1024 - 2 ^ 970)) && ltb_ℤ (pos 0) (n +ℤ pos (2 ^ 1024 - 2 ^ 970))

module _ {F : Type 0} ⦃fl : Floats F⦄ where
  -- `ScoreValue(float(v))` for a number that is no bool. An int is in range as 0 or 1; of the others,
  -- `float` raises OverflowError for those that it rounds to no float, and `ScoreValue` ValueError.
  abbrev pub score_of_number : Value F → Result (ScoreValue F)
  score_of_number (Value.float x) = score_value x
  score_of_number (Value.int n) =
      if n == pos 0
      then score_value (fl.lit 0 1)
      else if n == pos 1
      then score_value (fl.lit 1 1)
      else raise (if is_float_range n then value_error else overflow_error)
  score_of_number _ = raise type_error

  abbrev pub prior_of : Value F → Result (ScoreValue F)
  prior_of (Value.mapping reliability) = elim (lookup_field "prior_confidence" reliability) [
    | none ↦ raise value_error
    | some prior ↦ score_of_number prior
  ]
  prior_of _ = raise type_error

  unfoldable pub load_rule_spec : Fields F → Result (RuleSpec F)
  load_rule_spec parsed = do
    require_field parsed "id"
    require_field parsed "version"
    require_field parsed "maturity"
    require_field parsed "reliability"
    id_val ← value_at "id" parsed
    id ← stripped_text id_val
    version_val ← value_at "version" parsed
    version ← version_number version_val
    maturity_val ← value_at "maturity" parsed
    maturity ← stripped_text maturity_val
    reliability ← value_at "reliability" parsed
    prior ← prior_of reliability
    ok (record {
      id = id;
      version = version;
      maturity = maturity;
      prior_confidence = prior;
      raw = parsed;
    })

  -- `safe_load` is the YAML parser's
  unfoldable pub load_rule_spec_from_yaml :
      (String → Result (Value F)) → String → Result (RuleSpec F)
  load_rule_spec_from_yaml safe_load text = do
    parsed ← safe_load text
    elim parsed [ Value.mapping fs ↦ load_rule_spec fs | _ ↦ raise type_error ]

module _ {F : Type 0} where
  unfoldable pub compile_rule_condition : RuleSpec F → Result (ConditionTree F)
  compile_rule_condition spec = elim (lookup_field "condition" spec.raw) [
    | none ↦ raise value_error
    | some condition ↦ load_condition_tree condition
  ]
