-- ===== src/Floats/Fixed.antt =====
-- A concrete instance of the interface: decimal fixed point, in ten-thousandths, rounded down.
use native.Mathlib.Nat.{
  mul-div_right, le-div_iff_mul-le, div-mul-le_self, mul-le-mul, mul-le-mul_right,
  le_of_mul-le-mul_right, mul-div_cancel, zero-div, div-one,
}
use intelligent_rag_framewor.Prelude.{ℕ, ◌+◌, ◌-◌, ◌*◌, ◌/◌, ◌≤◌, ◌<◌, ◌≡◌, refl, true, arith, leb}
use intelligent_rag_framewor.Floats.{Floats}

pub to_leb : (a b : ℕ) → a ≤ b → leb a b ≡ true
to_leb a b h = ground arith

pub of_leb : (a b : ℕ) → leb a b ≡ true → a ≤ b
of_leb a b h = ground arith

abbrev pub lit : ℕ → ℕ → ℕ
lit n d = n * 10000 / d

pub quotient_mono : (a b d : ℕ) → 0 < d → a ≤ b → a / d ≤ b / d
quotient_mono a b d pos h = (le-div_iff_mul-le pos).1 (omega (arith, div-mul-le_self a d, h))

lit-one : (n : ℕ) → lit n 1 ≡ n * 10000
lit-one n = div-one (n * 10000)

pub lit_mono : (n d m e : ℕ) → 0 < d → 0 < e → n * e ≤ m * d → lit n d ≤ lit m e
lit_mono n d m e d_pos e_pos h =
    let q = n * 10000 / d in
    let below : q * d ≤ n * 10000 = div-mul-le_self (n * 10000) d in
    let scaled : q * d * e ≤ n * 10000 * e = mul-le-mul_right e below in
    let bound : n * e * 10000 ≤ m * d * 10000 = mul-le-mul_right 10000 h in
    (le-div_iff_mul-le e_pos).1 (le_of_mul-le-mul_right (omega (arith, scaled, bound)) d_pos)

pub product_mono : (a b c d : ℕ) → a ≤ b → c ≤ d → a * c / 10000 ≤ b * d / 10000
product_mono a b c d h k = quotient_mono (a * c) (b * d) 10000 (ground arith) (mul-le-mul h k)

pub quotient_self : (n : ℕ) → 0 < n → lit n 1 * 10000 / lit n 1 ≡ 10000
quotient_self n pos = rw (lit-one n) (mul-div_right 10000 (omega arith))

pub leb_self : (a : ℕ) → leb a a ≡ true
leb_self a = ground arith

pub leb_chain : (a b c : ℕ) → leb a b ≡ true → leb b c ≡ true → leb a c ≡ true
leb_chain a b c h k = ground arith

pub ten_thousand : 0 < 10000
ten_thousand = omega arith

pub difference_anti : (a b : ℕ) → leb a b ≡ true → leb (lit 1 1 - b) (lit 1 1 - a) ≡ true
difference_anti a b h = ground arith

pub sum_mono : (a b c d : ℕ) → leb a b ≡ true → leb c d ≡ true → leb (a + c) (b + d) ≡ true
sum_mono a b c d h k = ground arith

instance abbrev pub fixed : Floats ℕ
fixed = record {
  lit = lit;
  leb = leb;
  add = λ a b. a + b;
  sub = λ a b. a - b;
  mul = λ a b. a * b / 10000;
  div = λ a b. a * 10000 / b;
  leb_refl = λ a b h. leb_self a;
  leb_trans = leb_chain;
  lit_mono = λ n d m e p q h. to_leb (lit n d) (lit m e) (lit_mono n d m e p q h);
  mul-one = λ a. mul-div_cancel a ten_thousand;
  one-mul = λ a. omega arith;
  zero-mul-zero = refl;
  mul_mono = λ a b c d _ _ h k _ _.
      to_leb (a * c / 10000) (b * d / 10000) (product_mono a b c d (of_leb a b h) (of_leb c d k));
  one-sub_anti = λ a b _ h _. difference_anti a b h;
  one-sub-zero = refl;
  one-sub-one = refl;
  add_mono = λ a b c d _ _ h k. sum_mono a b c d h k;
  add-lit = λ n m _. omega arith;
  nine_tenths-add = refl;
  div_mono = λ a b n pos _ h. to_leb _ _ (
      quotient_mono (a * 10000) (b * 10000) (lit n 1) (omega arith)
        (mul-le-mul_right 10000 (of_leb a b h)));
  div_self = λ n pos. quotient_self n pos;
  zero-div = λ n pos. zero-div (lit n 1);
}
