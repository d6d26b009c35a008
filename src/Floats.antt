-- ===== src/Floats.antt =====
-- Python's `float`, as an interface: the operations that the program uses, with laws of IEEE 754
-- binary64 arithmetic (every operation is the exact one, rounded, and rounding is monotone).
-- `Floats/Fixed.antt` is a concrete instance.
pub mod Fixed
use intelligent_rag_framewor.Prelude.{ℕ, ◌+◌, ◌*◌, ◌^◌, ◌≤◌, ◌<◌, ◌≡◌, Bool, true, false, ◌&&◌}

pub record Floats (F : Type 0) : Type 0 where
  -- the double that is nearest to n / d, as a literal or a quotient of small integers denotes it
  pub lit : ℕ → ℕ → F
  -- `a <= b`; false where an operand is not a number
  pub leb : F → F → Bool
  pub add : F → F → F
  pub sub : F → F → F
  pub mul : F → F → F
  pub div : F → F → F
  pub leb_refl : (a b : F) → leb a b ≡ true → leb a a ≡ true
  pub leb_trans : (a b c : F) → leb a b ≡ true → leb b c ≡ true → leb a c ≡ true
  pub lit_mono : (n d m e : ℕ) → 0 < d → 0 < e → n * e ≤ m * d → leb (lit n d) (lit m e) ≡ true
  pub mul-one : (a : F) → mul a (lit 1 1) ≡ a
  pub one-mul : (a : F) → mul (lit 1 1) a ≡ a
  pub zero-mul-zero : mul (lit 0 1) (lit 0 1) ≡ lit 0 1
  -- on operands from 0 up
  pub mul_mono :
      (a b c d : F)
      → leb (lit 0 1) a ≡ true
      → leb (lit 0 1) c ≡ true
      → leb a b ≡ true
      → leb c d ≡ true
      → leb b (lit 1 1) ≡ true
      → leb d (lit 1 1) ≡ true
      → leb (mul a c) (mul b d) ≡ true
  -- 1.0 - b <= 1.0 - a, for a <= b in the unit interval
  pub one-sub_anti :
      (a b : F)
      → leb (lit 0 1) a ≡ true
      → leb a b ≡ true
      → leb b (lit 1 1) ≡ true
      → leb (sub (lit 1 1) b) (sub (lit 1 1) a) ≡ true
  pub one-sub-zero : sub (lit 1 1) (lit 0 1) ≡ lit 1 1
  pub one-sub-one : sub (lit 1 1) (lit 1 1) ≡ lit 0 1
  pub add_mono :
      (a b c d : F)
      → leb (lit 0 1) a ≡ true
      → leb (lit 0 1) c ≡ true
      → leb a b ≡ true
      → leb c d ≡ true
      → leb (add a c) (add b d) ≡ true
  -- integers up to 2 ** 53 are added exactly
  pub add-lit : (n m : ℕ) → n + m ≤ 2 ^ 53 → add (lit n 1) (lit m 1) ≡ lit (n + m) 1
  -- 0.9 + 0.1 == 1.0
  pub nine_tenths-add : add (lit 9 10) (lit 1 10) ≡ lit 1 1
  -- division by an integer from 1 up
  pub div_mono :
      (a b : F) (n : ℕ)
      → 0 < n
      → leb (lit 0 1) a ≡ true
      → leb a b ≡ true
      → leb (div a (lit n 1)) (div b (lit n 1)) ≡ true
  pub div_self : (n : ℕ) → 0 < n → div (lit n 1) (lit n 1) ≡ lit 1 1
  pub zero-div : (n : ℕ) → 0 < n → div (lit 0 1) (lit n 1) ≡ lit 0 1

module _ {F : Type 0} ⦃fl : Floats F⦄ where
  -- 0.0 and 1.0
  abbrev pub zero_float : F
  zero_float = fl.lit 0 1

  abbrev pub one_float : F
  one_float = fl.lit 1 1

  -- `a == b`
  abbrev pub feq : F → F → Bool
  feq a b = fl.leb a b && fl.leb b a

  -- `0.0 <= a <= 1.0`
  abbrev pub in_unit : F → Bool
  in_unit a = fl.leb (fl.lit 0 1) a && fl.leb a (fl.lit 1 1)
