-- ===== src/Value.antt =====
-- The dynamic values of Python that the program inspects. `F` stands for `float`.
pub mod Comparison
use intelligent_rag_framewor.Prelude.{ℤ, String, Bool, List, [], ◌∷◌, Option, none, some}

mutual
  pub data Value (F : Type 0) : Type 0 where
    null : Value F
    bool : Bool → Value F
    int : ℤ → Value F
    float : F → Value F
    str : String → Value F
    list : Values F → Value F
    tuple : Values F → Value F
    -- a dict with string keys, in the order of its entries
    mapping : Fields F → Value F

  pub data Values (F : Type 0) : Type 0 where
    nil : Values F
    cons : Value F → Values F → Values F

  pub data Fields (F : Type 0) : Type 0 where
    end : Fields F
    field : String → Value F → Fields F → Fields F

module _ {F : Type 0} where
  abbrev pub to_list : Values F → List (Value F)
  to_list nil = []
  to_list (cons v vs) = v ∷ to_list vs

  abbrev pub keys : Fields F → List String
  keys end = []
  keys (field k v fs) = k ∷ keys fs

  abbrev pub as_values : List String → List (Value F)
  as_values [] = []
  as_values (k ∷ ks) = str k ∷ as_values ks

  -- what a `for` loop over the value visits; `none` where the value is not iterable. A text is
  -- never iterated by the program.
  unfoldable pub elements : Value F → Option (List (Value F))
  elements (list vs) = some (to_list vs)
  elements (tuple vs) = some (to_list vs)
  elements (mapping fs) = some (as_values (keys fs))
  elements v = none
