-- ===== src/Loading/Text.antt =====
-- `str.strip` of Python, which the loaders of ragcore call.
use Prim.Native.String.{[], ◌∷◌}
use Prim.Native.Char.{Char, code}
use intelligent_rag_framewor.Prelude.{
  String, Bool, true, false, ◌&&◌, ◌||◌, ◌≡◌, refl, if◌then◌else◌, leb, eqb, arith, string_eq, ◌⊎◌,
  inl, inr, Bool-cases,
}

-- `c.isspace()`
abbrev pub is_space : Char → Bool
is_space c =
    (leb 9 (code c) && leb (code c) 13)
    || ((leb 28 (code c) && leb (code c) 32)
        || (eqb (code c) 133
            || (eqb (code c) 160
                || (eqb (code c) 5760
                    || ((leb 8192 (code c) && leb (code c) 8202)
                        || (eqb (code c) 8232
                            || (eqb (code c) 8233
                                || (eqb (code c) 8239
                                    || (eqb (code c) 8287 || eqb (code c) 12288)))))))))

unfoldable pub left_strip : String → String
left_strip [] = []
left_strip (c ∷ s) = let rest = left_strip s in if is_space c then rest else c ∷ s

abbrev pub is_blank : String → Bool
is_blank [] = true
is_blank (_ ∷ _) = false

unfoldable pub right_strip : String → String
right_strip [] = []
right_strip (c ∷ s) =
    let rest = right_strip s in if is_space c && is_blank rest then [] else c ∷ rest

-- `text.strip()`
unfoldable pub strip : String → String
strip text = right_strip (left_strip text)

right_strip_twice : (s : String) → right_strip (right_strip s) ≡ right_strip s
unfolding right_strip
right_strip_twice [] = refl
right_strip_twice (c ∷ s) = ground (arith, right_strip_twice s)

left_strip_cases :
    (s : String)
    → (left_strip s ≡ [])
      ⊎ ((c : Char) × (t : String) × (left_strip s ≡ c ∷ t) × (is_space c ≡ false))
unfolding left_strip
left_strip_cases [] = inl refl
left_strip_cases (c ∷ s) = elim (Bool-cases (is_space c)) [
  | inl blank ↦ elim (left_strip_cases s) [
    | inl e ↦ inl (ground arith)
    | inr (d, t, e, h) ↦ inr (d, t, ground arith, h)
  ]
  | inr solid ↦ inr (c, s, ground arith, solid)
]

-- A stripped text is left as it is.
pub strip-strip : (s : String) → strip (strip s) ≡ strip s
unfolding strip left_strip right_strip
strip-strip s = elim (left_strip_cases s) [
  | inl e ↦ rw e refl
  | inr (c, t, e, h) ↦ rw (e, h, h, h) (ground (arith, right_strip_twice t))
]
