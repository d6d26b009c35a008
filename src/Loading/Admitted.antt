-- ===== src/Loading/Admitted.antt =====
-- What a rule is after it is loaded and compiled: ragcore/rule_loader.py, ragcore/rule_compile.py,
-- ragcore/rule_output.py and ragcore/rule_gap.py.
use intelligent_rag_framewor.Prelude.{
  ℤ, pos, String, ◌≡◌, inl, inr, true, false, ok, arith, ◌==◌, int_eq, string_eq, Result-cases,
  Option-cases, ◌≤ℤ◌, leb_ℤ_iff,
}
use intelligent_rag_framewor.Floats.{Floats, in_unit}
use intelligent_rag_framewor.Types.{ScoreValue, score_value}
use intelligent_rag_framewor.Value.{Value, Fields}
use intelligent_rag_framewor.Value.Comparison.{lookup_field}
use intelligent_rag_framewor.Loading.Text.{strip, strip-strip}
use intelligent_rag_framewor.Loading.Header.{
  RuleSpec, load_rule_spec, stripped_text, version_number, prior_of, score_of_number,
}
use intelligent_rag_framewor.Loading.Maps.{is_uint16}

-- a name without blanks around it, which is not empty
abbrev pub IsName : String → Type 0
IsName name = (strip name ≡ name) × ((name == "") ≡ false)

abbrev pub IsUint16 : ℤ → Type 0
IsUint16 n = (pos 1 ≤ℤ n) × (n ≤ℤ pos 65535)

uint16_lem : (n : ℤ) → is_uint16 n ≡ true → IsUint16 n
uint16_lem n h = ground (arith, leb_ℤ_iff (pos 1) n, leb_ℤ_iff n (pos 65535))

module _ {F : Type 0} ⦃fl : Floats F⦄ where
  stripped-IsName : (v : Value F) (name : String) → stripped_text v ≡ ok name → IsName name
  stripped-IsName (Value.str text) name h = ground (arith, strip-strip text)
  stripped-IsName Value.null name h = ground arith
  stripped-IsName (Value.bool _) name h = ground arith
  stripped-IsName (Value.int _) name h = ground arith
  stripped-IsName (Value.float _) name h = ground arith
  stripped-IsName (Value.list _) name h = ground arith
  stripped-IsName (Value.tuple _) name h = ground arith
  stripped-IsName (Value.mapping _) name h = ground arith

  version-IsUint16 : (v : Value F) (n : ℤ) → version_number v ≡ ok n → IsUint16 n
  version-IsUint16 (Value.int m) n h = ground (arith, leb_ℤ_iff (pos 1) m, leb_ℤ_iff m (pos 65535))
  version-IsUint16 Value.null n h = ground arith
  version-IsUint16 (Value.bool _) n h = ground arith
  version-IsUint16 (Value.str _) n h = ground arith
  version-IsUint16 (Value.float _) n h = ground arith
  version-IsUint16 (Value.list _) n h = ground arith
  version-IsUint16 (Value.tuple _) n h = ground arith
  version-IsUint16 (Value.mapping _) n h = ground arith

  score_value-in_unit :
      (x : F) (sv : ScoreValue F) → score_value x ≡ ok sv → in_unit sv.value ≡ true
  unfolding score_value
  score_value-in_unit x sv h = ground arith

  pub score-in_unit :
      (v : Value F) (sv : ScoreValue F) → score_of_number v ≡ ok sv → in_unit sv.value ≡ true
  score-in_unit (Value.float x) sv h = score_value-in_unit x sv h
  score-in_unit (Value.int n) sv h =
      ground (arith, score_value-in_unit (fl.lit 0 1) sv, score_value-in_unit (fl.lit 1 1) sv)
  score-in_unit Value.null sv h = ground arith
  score-in_unit (Value.bool _) sv h = ground arith
  score-in_unit (Value.str _) sv h = ground arith
  score-in_unit (Value.list _) sv h = ground arith
  score-in_unit (Value.tuple _) sv h = ground arith
  score-in_unit (Value.mapping _) sv h = ground arith

  prior-in_unit : (v : Value F) (sv : ScoreValue F) → prior_of v ≡ ok sv → in_unit sv.value ≡ true
  prior-in_unit (Value.mapping fs) sv h = elim (Option-cases (lookup_field "prior_confidence" fs)) [
    | inl missing ↦ ground arith
    | inr (v, found) ↦ score-in_unit v sv (ground arith)
  ]
  prior-in_unit Value.null sv h = ground arith
  prior-in_unit (Value.bool _) sv h = ground arith
  prior-in_unit (Value.int _) sv h = ground arith
  prior-in_unit (Value.float _) sv h = ground arith
  prior-in_unit (Value.str _) sv h = ground arith
  prior-in_unit (Value.list _) sv h = ground arith
  prior-in_unit (Value.tuple _) sv h = ground arith

  abbrev pub IsHeader : Fields F → RuleSpec F → Type 0
  IsHeader parsed spec =
      IsName spec.id
      × IsName spec.maturity
      × IsUint16 spec.version
      × (in_unit spec.prior_confidence.value ≡ true)
      × (spec.raw ≡ parsed)

  -- A spec that `load_rule_spec` returns has an id and a maturity that are stripped and not empty, a
  -- version from 1 to 65535, a prior confidence in the unit interval, and the mapping it was given.
  pub load_rule_spec-IsHeader :
      (parsed : Fields F) (spec : RuleSpec F)
      → load_rule_spec parsed ≡ ok spec
      → IsHeader parsed spec
  unfolding load_rule_spec
  load_rule_spec-IsHeader parsed spec h = elim (Option-cases (lookup_field "id" parsed)) [
    | inl missing ↦ ground arith
    | inr (a, id_found) ↦ elim (Option-cases (lookup_field "version" parsed)) [
      | inl missing ↦ ground arith
      | inr (b, version_found) ↦ elim (Option-cases (lookup_field "maturity" parsed)) [
        | inl missing ↦ ground arith
        | inr (c, maturity_found) ↦ elim (Option-cases (lookup_field "reliability" parsed)) [
          | inl missing ↦ ground arith
          | inr (d, reliability_found) ↦ elim (Result-cases (stripped_text a)) [
            | inr (e, failed) ↦ ground arith
            | inl (id, read_id) ↦ elim (Result-cases (version_number b)) [
              | inr (e, failed) ↦ ground arith
              | inl (n, read_version) ↦ elim (Result-cases (stripped_text c)) [
                | inr (e, failed) ↦ ground arith
                | inl (m, read_maturity) ↦ elim (Result-cases (prior_of d)) [
                  | inr (e, failed) ↦ ground arith
                  | inl (sv, read_prior) ↦ ground (
                    arith,
                    stripped-IsName a id read_id,
                    stripped-IsName c m read_maturity,
                    version-IsUint16 b n read_version,
                    prior-in_unit d sv read_prior,
                  )
                ]
              ]
            ]
          ]
        ]
      ]
    ]
  ]
