-- ===== src/Scoring/Units.antt =====
-- Arithmetic in the unit interval of the floats.
use intelligent_rag_framewor.Prelude.{
  ℕ, ◌+◌, ◌^◌, ◌≤◌, ◌<◌, ◌≡◌, sym, true, List, [], ◌∷◌, arith, length, Every, suc,
}
use mathlib.Core.List.{foldl}
use intelligent_rag_framewor.Floats.{Floats, in_unit, zero_float, one_float}

module _ {F : Type 0} ⦃fl : Floats F⦄ where
  abbrev pub IsUnit : F → Type 0
  IsUnit a = (fl.leb (fl.lit 0 1) a ≡ true) × (fl.leb a (fl.lit 1 1) ≡ true)

  pub in_unit-IsUnit : (a : F) → in_unit a ≡ true → IsUnit a
  in_unit-IsUnit a h = ground arith

  pub IsUnit-in_unit : (a : F) → IsUnit a → in_unit a ≡ true
  IsUnit-in_unit a h = ground arith

  pub leb-right : (a b c : F) → b ≡ c → fl.leb a b ≡ true → fl.leb a c ≡ true
  leb-right a b c e h = rw (sym e) h

  pub leb-left : (a b c : F) → a ≡ c → fl.leb a b ≡ true → fl.leb c b ≡ true
  leb-left a b c e h = rw (sym e) h

module _ (F : Type 0) ⦃fl : Floats F⦄ where
  pub lit-IsUnit : (n d : ℕ) → 0 < d → n ≤ d → IsUnit (fl.lit n d)
  lit-IsUnit n d pos le = (
    fl.lit_mono 0 1 n d (omega arith) pos (omega arith),
    fl.lit_mono n d 1 1 pos (omega arith) (omega arith),
  )

module _ {F : Type 0} ⦃fl : Floats F⦄ where
  pub mul-IsUnit : (a b : F) → IsUnit a → IsUnit b → IsUnit (fl.mul a b)
  mul-IsUnit a b (a_low, a_high) (b_low, b_high) =
      let (zero_low, zero_high) = lit-IsUnit F 0 1 (omega arith) (omega arith) in
      let (one_low, one_high) = lit-IsUnit F 1 1 (omega arith) (omega arith) in
      let low : fl.leb (fl.mul zero_float zero_float) (fl.mul a b) ≡ true =
        fl.mul_mono zero_float a zero_float b zero_low zero_low a_low b_low a_high b_high in
      let high : fl.leb (fl.mul a b) (fl.mul one_float one_float) ≡ true =
        fl.mul_mono a one_float b one_float a_low b_low a_high b_high one_high one_high in
      (rw (sym fl.zero-mul-zero) low, rw (sym (fl.mul-one one_float)) high)

  -- A factor in the unit interval never raises a product.
  pub mul-le : (a b : F) → IsUnit a → IsUnit b → fl.leb (fl.mul a b) a ≡ true
  mul-le a b (a_low, a_high) (b_low, b_high) =
      let (one_low, one_high) = lit-IsUnit F 1 1 (omega arith) (omega arith) in
      let high : fl.leb (fl.mul a b) (fl.mul a one_float) ≡ true =
        fl.mul_mono a a b one_float a_low b_low (fl.leb_refl a one_float a_high) b_high a_high
          one_high in
      leb-right (fl.mul a b) (fl.mul a one_float) a (fl.mul-one a) high

  pub mul-le_right : (a b : F) → IsUnit a → IsUnit b → fl.leb (fl.mul a b) b ≡ true
  mul-le_right a b (a_low, a_high) (b_low, b_high) =
      let (one_low, one_high) = lit-IsUnit F 1 1 (omega arith) (omega arith) in
      leb-right (fl.mul a b) (fl.mul one_float b) b (fl.one-mul b) (
        fl.mul_mono a one_float b b a_low b_low a_high (fl.leb_refl b one_float b_high) one_high
          b_high)

  pub one_sub-IsUnit : (a : F) → IsUnit a → IsUnit (fl.sub one_float a)
  one_sub-IsUnit a (low, high) =
      let (zero_low, zero_high) = lit-IsUnit F 0 1 (omega arith) (omega arith) in
      let (one_low, one_high) = lit-IsUnit F 1 1 (omega arith) (omega arith) in
      (
        leb-left (fl.sub one_float one_float) (fl.sub one_float a) zero_float fl.one-sub-one
            (fl.one-sub_anti a one_float low high one_high),
        leb-right (fl.sub one_float a) (fl.sub one_float zero_float) one_float fl.one-sub-zero
            (fl.one-sub_anti zero_float a zero_low low high),
      )

  -- The bound that a sum of unit numbers has, from the left.
  foldl_bounds :
      (xs : List F) (acc : F) (k : ℕ)
      → Every IsUnit xs
      → fl.leb zero_float acc ≡ true
      → fl.leb acc (fl.lit k 1) ≡ true
      → k + length xs ≤ 2 ^ 53
      → (fl.leb zero_float (foldl fl.add acc xs) ≡ true)
        × (fl.leb (foldl fl.add acc xs) (fl.lit (k + length xs) 1) ≡ true)
  foldl_bounds [] acc k every low high bound = (
    low,
    fl.leb_trans acc (fl.lit k 1) (fl.lit (k + 0) 1) high
        (fl.lit_mono k 1 (k + 0) 1 (omega arith) (omega arith) (omega arith)),
  )
  foldl_bounds (x ∷ xs) acc k ((x_low, x_high), every) low high bound =
      let zero_low : fl.leb zero_float zero_float ≡ true =
        (lit-IsUnit F 0 1 (omega arith) (omega arith)).0 in
      let low' : fl.leb (fl.add zero_float zero_float) (fl.add acc x) ≡ true =
        fl.add_mono zero_float acc zero_float x zero_low zero_low low x_low in
      let high' : fl.leb (fl.add acc x) (fl.add (fl.lit k 1) (fl.lit 1 1)) ≡ true =
        fl.add_mono acc (fl.lit k 1) x one_float low x_low high x_high in
      let (sum_low, sum_high) =
        foldl_bounds xs (fl.add acc x) (k + 1) every (rw (sym (fl.add-lit 0 0 (ground arith))) low')
          (rw (sym (fl.add-lit k 1 (omega arith))) high') (omega arith) in
      (
        sum_low,
        fl.leb_trans (foldl fl.add (fl.add acc x) xs) (fl.lit (k + 1 + length xs) 1)
            (fl.lit (k + suc (length xs)) 1) sum_high
            (fl.lit_mono (k + 1 + length xs) 1 (k + suc (length xs)) 1 (omega arith) (omega arith)
              (omega arith)),
      )

  -- The average of unit numbers is in the unit interval.
  pub average-IsUnit :
      (xs : List F)
      → Every IsUnit xs
      → 0 < length xs
      → length xs ≤ 2 ^ 53
      → IsUnit (fl.div (foldl fl.add zero_float xs) (fl.lit (length xs) 1))
  average-IsUnit xs every some_there bound =
      let (zero_low, zero_high) = lit-IsUnit F 0 1 (omega arith) (omega arith) in
      let (low, top) = foldl_bounds xs zero_float 0 every zero_low zero_low (omega arith) in
      let total : F = foldl fl.add zero_float xs in
      let high : fl.leb total (fl.lit (length xs) 1) ≡ true =
        fl.leb_trans total (fl.lit (0 + length xs) 1) (fl.lit (length xs) 1) top
          (fl.lit_mono (0 + length xs) 1 (length xs) 1 (omega arith) (omega arith) (omega arith)) in
      (
        leb-left (fl.div zero_float (fl.lit (length xs) 1)) (fl.div total (fl.lit (length xs) 1))
            zero_float (fl.zero-div (length xs) some_there)
            (fl.div_mono zero_float total (length xs) some_there zero_low low),
        leb-right (fl.div total (fl.lit (length xs) 1))
            (fl.div (fl.lit (length xs) 1) (fl.lit (length xs) 1)) one_float
            (fl.div_self (length xs) some_there)
            (fl.div_mono total (fl.lit (length xs) 1) (length xs) some_there low high),
      )
