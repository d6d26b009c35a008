-- ===== src/Value/Comparison.antt =====
-- `==`, `<`, `<=` and `in` of Python on the values that the conditions of ragcore/condition.py meet. A
-- container compares its members by `==` alone, which differs from Python on a NaN that is the same
-- object.
use Prim.Native.String.{len, find}
use intelligent_rag_framewor.Prelude.{
  ℤ, pos, String, Bool, true, false, ◌&&◌, Option, none, some, ◌==◌, string_eq, eqb, leb, length,
  if◌then◌else◌, ◌≡◌, int_eq,
}
use intelligent_rag_framewor.Value.{Value, Values, Fields, keys}

-- `needle in text`
abbrev pub is_substring : String → String → Bool
is_substring needle text = leb (find text needle) (len text)

-- an int or a float
pub data Number (F : Type 0) : Type 0 where
  int : ℤ → Number F
  float : F → Number F

-- The exact comparisons of Python between ints and floats, with the law that ints are compared as
-- integers.
pub record Numbers (F : Type 0) : Type 0 where
  pub equal : Number F → Number F → Bool
  pub less : Number F → Number F → Bool
  pub at_most : Number F → Number F → Bool
  pub equal_int : (a b : ℤ) → equal (Number.int a) (Number.int b) ≡ (a == b)

module _ {F : Type 0} where
  abbrev pub lookup_field : String → Fields F → Option (Value F)
  lookup_field k Fields.end = none
  lookup_field k (Fields.field j v fs) =
      let rest = lookup_field k fs in if j == k then some v else rest

  -- `bool` is a kind of `int` under `==`
  abbrev pub as_number : Value F → Option (Number F)
  as_number (Value.bool true) = some (Number.int (pos 1))
  as_number (Value.bool false) = some (Number.int (pos 0))
  as_number (Value.int n) = some (Number.int n)
  as_number (Value.float x) = some (Number.float x)
  as_number _ = none

module _ {F : Type 0} ⦃nums : Numbers F⦄ where
  abbrev pub number_eq : Option (Number F) → Option (Number F) → Bool
  number_eq (some a) (some b) = nums.equal a b
  number_eq _ _ = false

  unfoldable mutual
    pub value_eq : Value F → Value F → Bool
    value_eq Value.null Value.null = true
    value_eq (Value.str s) (Value.str t) = s == t
    value_eq (Value.list vs) (Value.list ws) = values_eq vs ws
    value_eq (Value.tuple vs) (Value.tuple ws) = values_eq vs ws
    value_eq (Value.mapping fs) (Value.mapping gs) =
        eqb (length (keys fs)) (length (keys gs)) && fields_sub fs gs
    value_eq v w = number_eq (as_number v) (as_number w)

    pub values_eq : Values F → Values F → Bool
    values_eq Values.nil Values.nil = true
    values_eq (Values.cons v vs) (Values.cons w ws) = value_eq v w && values_eq vs ws
    values_eq _ _ = false

    -- every entry of the first is one of the second
    pub fields_sub : Fields F → Fields F → Bool
    fields_sub Fields.end gs = true
    fields_sub (Fields.field k v fs) gs = elim (lookup_field k gs) [
      | none ↦ false
      | some w ↦ value_eq v w && fields_sub fs gs
    ]
