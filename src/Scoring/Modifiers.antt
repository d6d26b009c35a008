-- ===== src/Scoring/Modifiers.antt =====
-- The modifiers of ragcore/_engine/confidence.py: each one stays in the unit interval.
use Prim.Native.Nat.{min}
use intelligent_rag_framewor.Prelude.{
  ℕ, ℤ, ◌^◌, ◌≤◌, ◌≡◌, refl, Bool, true, false, inl, inr, Option, none, some, List, arith, length,
  ltb, eqb, Every, Bool-cases, pos_part, all, elem, is_empty, ok, int_eq, eqb_ℤ, if◌then◌else◌,
}
use intelligent_rag_framewor.Floats.{Floats, one_float, zero_float}
use intelligent_rag_framewor.Engine.Confidence.{
  status_modifier, freshness_modifier, gap_modifier, sum, count_modifier, maturity_modifier,
  precision_modifier, rule_stats_modifier, evidence_type_modifier, compose_effective_confidence,
}
use intelligent_rag_framewor.Scoring.Units.{
  IsUnit, lit-IsUnit, mul-IsUnit, mul-le, mul-le_right, one_sub-IsUnit, average-IsUnit, leb-left,
  leb-right,
}
use intelligent_rag_framewor.Spec.{IsStatus}

module _ (F : Type 0) ⦃fl : Floats F⦄ where
  if-IsUnit : (b : Bool) (x y : F) → IsUnit x → IsUnit y → IsUnit (if b then x else y)
  if-IsUnit true x y h k = h
  if-IsUnit false x y h k = k

  pub gap_modifier-IsUnit : (n : ℕ) → IsUnit {F = F} (gap_modifier n)
  unfolding gap_modifier
  gap_modifier-IsUnit n =
      if-IsUnit (eqb n 0) one_float
        (if eqb n 1 then fl.lit 9 10 else if eqb n 2 then fl.lit 8 10 else fl.lit 7 10)
        (lit-IsUnit F 1 1 (omega arith) (omega arith))
        (if-IsUnit (eqb n 1) (fl.lit 9 10) (if eqb n 2 then fl.lit 8 10 else fl.lit 7 10)
          (lit-IsUnit F 9 10 (omega arith) (omega arith))
          (if-IsUnit (eqb n 2) (fl.lit 8 10) (fl.lit 7 10)
            (lit-IsUnit F 8 10 (omega arith) (omega arith))
            (lit-IsUnit F 7 10 (omega arith) (omega arith))))

  maturity_modifier-IsUnit : (n : ℤ) → IsUnit (maturity_modifier {F = F} n)
  unfolding maturity_modifier
  maturity_modifier-IsUnit n =
      let ratio : F = fl.lit (min (pos_part n) 2) 2 in
      let missing : F = fl.sub one_float ratio in
      one_sub-IsUnit (fl.mul missing (fl.lit 2 10)) (
        mul-IsUnit missing (fl.lit 2 10)
          (one_sub-IsUnit ratio (lit-IsUnit F (min (pos_part n) 2) 2 (omega arith) (omega arith)))
          (lit-IsUnit F 2 10 (omega arith) (omega arith)))

  pub evidence_type_modifier-IsUnit :
      (direct hints : List ℤ) → IsUnit (evidence_type_modifier {F = F} direct hints)
  unfolding evidence_type_modifier
  evidence_type_modifier-IsUnit direct hints =
      let one : IsUnit {F = F} one_float = lit-IsUnit F 1 1 (omega arith) (omega arith) in
      if-IsUnit (is_empty hints) one_float
        (if is_empty direct
          then one_float
          else if all (λ t. elem t hints) direct
          then fl.lit 9 10
          else one_float)
        one
        (if-IsUnit (is_empty direct) one_float
          (if all (λ t. elem t hints) direct then fl.lit 9 10 else one_float) one
          (if-IsUnit (all (λ t. elem t hints) direct) (fl.lit 9 10) one_float
            (lit-IsUnit F 9 10 (omega arith) (omega arith)) one))

module _ {F : Type 0} ⦃fl : Floats F⦄ where
  -- `None`, or a value in the unit interval
  abbrev pub OptionIsUnit : Option F → Type 0
  OptionIsUnit none = Unit
  OptionIsUnit (some a) = IsUnit a

  pub status_modifier_lem :
      (st : ℤ) → IsStatus st → (m : F) × (status_modifier st ≡ ok m) × IsUnit m
  unfolding status_modifier eqb_ℤ
  status_modifier_lem st (inl e) =
      (one_float, rw e refl, lit-IsUnit F 1 1 (omega arith) (omega arith))
  status_modifier_lem st (inr (inl e)) =
      (one_float, rw e refl, lit-IsUnit F 1 1 (omega arith) (omega arith))
  status_modifier_lem st (inr (inr (inl e))) =
      (zero_float, rw e refl, lit-IsUnit F 0 1 (omega arith) (omega arith))
  status_modifier_lem st (inr (inr (inr e))) =
      (fl.lit 1 2, rw e refl, lit-IsUnit F 1 2 (omega arith) (omega arith))

  pub freshness_modifier-IsUnit : (o : Option F) → OptionIsUnit o → IsUnit (freshness_modifier o)
  unfolding freshness_modifier
  freshness_modifier-IsUnit none h = lit-IsUnit F 1 1 (omega arith) (omega arith)
  freshness_modifier-IsUnit (some a) h =
      one_sub-IsUnit (fl.mul a (fl.lit 1 2))
        (mul-IsUnit a (fl.lit 1 2) h (lit-IsUnit F 1 2 (omega arith) (omega arith)))

  pub count_modifier-IsUnit :
      (xs : List F) → Every IsUnit xs → length xs ≤ 2 ^ 53 → IsUnit (count_modifier xs)
  unfolding count_modifier sum
  count_modifier-IsUnit xs every bound =
      let average : F = fl.div (sum xs) (fl.lit (length xs) 1) in
      elim (Bool-cases (ltb (length xs) 2)) [
        | inl few ↦ rw few (lit-IsUnit F 1 1 (omega arith) (omega arith))
        | inr many ↦ rw many (
            one_sub-IsUnit (fl.mul average (fl.lit 1 4)) (
              mul-IsUnit average (fl.lit 1 4) (average-IsUnit xs every (ground arith) bound)
                (lit-IsUnit F 1 4 (omega arith) (omega arith))))
      ]

  precision_modifier-IsUnit : (o : Option F) → OptionIsUnit o → IsUnit (precision_modifier o)
  unfolding precision_modifier
  precision_modifier-IsUnit none h = lit-IsUnit F 1 1 (omega arith) (omega arith)
  precision_modifier-IsUnit (some p) (low, high) =
      let (zero_low, zero_high) = lit-IsUnit F 0 1 (omega arith) (omega arith) in
      let (one_low, one_high) = lit-IsUnit F 1 1 (omega arith) (omega arith) in
      let tenth : IsUnit (fl.lit 1 10) = lit-IsUnit F 1 10 (omega arith) (omega arith) in
      let most : IsUnit (fl.lit 9 10) = lit-IsUnit F 9 10 (omega arith) (omega arith) in
      let share : F = fl.mul p (fl.lit 1 10) in
      let (share_low, share_high) = mul-IsUnit p (fl.lit 1 10) (low, high) tenth in
      let up : fl.leb share (fl.lit 1 10) ≡ true =
        leb-right share (fl.mul one_float (fl.lit 1 10)) (fl.lit 1 10) (fl.one-mul (fl.lit 1 10)) (
          fl.mul_mono p one_float (fl.lit 1 10) (fl.lit 1 10) low tenth.0 high
            (fl.leb_refl (fl.lit 1 10) one_float tenth.1) one_high tenth.1) in
      (
        leb-left (fl.add zero_float zero_float) (fl.add (fl.lit 9 10) share) zero_float
            (fl.add-lit 0 0 (ground arith))
            (fl.add_mono zero_float (fl.lit 9 10) zero_float share zero_low zero_low most.0
              share_low),
        leb-right (fl.add (fl.lit 9 10) share) (fl.add (fl.lit 9 10) (fl.lit 1 10)) one_float
            fl.nine_tenths-add
            (fl.add_mono (fl.lit 9 10) (fl.lit 9 10) share (fl.lit 1 10) most.0 share_low
              (fl.leb_refl (fl.lit 9 10) one_float most.1) up),
      )

  pub rule_stats_modifier-IsUnit :
      (n : Option ℤ) (o : Option F) → OptionIsUnit o → IsUnit (rule_stats_modifier n o)
  unfolding rule_stats_modifier
  rule_stats_modifier-IsUnit none o h = lit-IsUnit F 1 1 (omega arith) (omega arith)
  rule_stats_modifier-IsUnit (some n) o h =
      mul-IsUnit (maturity_modifier n) (precision_modifier o) (maturity_modifier-IsUnit F n)
        (precision_modifier-IsUnit o h)

  -- A product of unit numbers is one, at most its last factor, and at most what the first one is.
  times :
      (a b : F)
      → IsUnit a
      → IsUnit b
      → IsUnit (fl.mul a b)
        × (fl.leb (fl.mul a b) b ≡ true)
        × ((top : F) → fl.leb a top ≡ true → fl.leb (fl.mul a b) top ≡ true)
  times a b unit h = (
    mul-IsUnit a b unit h,
    mul-le_right a b unit h,
    λ top le. fl.leb_trans (fl.mul a b) a top (mul-le a b unit h) le,
  )

  -- For factors in the unit interval, the composed confidence is in the unit interval, and none of
  -- the seven factors is below it.
  pub compose_lem :
      (base a b c d e f : F)
      → IsUnit base
      → IsUnit a
      → IsUnit b
      → IsUnit c
      → IsUnit d
      → IsUnit e
      → IsUnit f
      → IsUnit (compose_effective_confidence base a b c d e f)
        × (fl.leb (compose_effective_confidence base a b c d e f) base ≡ true)
        × (fl.leb (compose_effective_confidence base a b c d e f) a ≡ true)
        × (fl.leb (compose_effective_confidence base a b c d e f) b ≡ true)
        × (fl.leb (compose_effective_confidence base a b c d e f) c ≡ true)
        × (fl.leb (compose_effective_confidence base a b c d e f) d ≡ true)
        × (fl.leb (compose_effective_confidence base a b c d e f) e ≡ true)
        × (fl.leb (compose_effective_confidence base a b c d e f) f ≡ true)
  unfolding compose_effective_confidence
  compose_lem base a b c d e f base' a' b' c' d' e' f' =
      let m1 : F = fl.mul base a in
      let m2 : F = fl.mul m1 b in
      let m3 : F = fl.mul m2 c in
      let m4 : F = fl.mul m3 d in
      let m5 : F = fl.mul m4 e in
      let (u1, below_a, k1) = times base a base' a' in
      let (u2, below_b, k2) = times m1 b u1 b' in
      let (u3, below_c, k3) = times m2 c u2 c' in
      let (u4, below_d, k4) = times m3 d u3 d' in
      let (u5, below_e, k5) = times m4 e u4 e' in
      let (u6, below_f, k6) = times m5 f u5 f' in
      (
        u6,
        k6 base (k5 base (k4 base (k3 base (k2 base (mul-le base a base' a'))))),
        k6 a (k5 a (k4 a (k3 a (k2 a below_a)))),
        k6 b (k5 b (k4 b (k3 b below_b))),
        k6 c (k5 c (k4 c below_c)),
        k6 d (k5 d below_d),
        k6 e below_e,
        below_f,
      )
