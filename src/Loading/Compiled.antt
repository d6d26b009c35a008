-- ===== src/Loading/Compiled.antt =====
-- What the compilers of ragcore/rule_compile.py, ragcore/rule_output.py and ragcore/rule_gap.py give, and
-- the firing of a rule that was loaded from a file.
use intelligent_rag_framewor.Prelude.{
  ℤ, String, ◌≡◌, refl, ◌⊎◌, inl, inr, true, Option, none, some, List, ok, [], ◌∷◌, arith, ◌==◌,
  int_eq, string_eq, pair_eq, Result-cases, Option-cases, Bool-cases, Every,
}
use intelligent_rag_framewor.Prelude.Dict.{Dict, lookup}
use intelligent_rag_framewor.Floats.{Floats, in_unit}
use intelligent_rag_framewor.Types.{RuleDefinition}
use intelligent_rag_framewor.Types.RuleMaturity
use intelligent_rag_framewor.Value.{Value, Values, Fields}
use intelligent_rag_framewor.Value.Comparison.{lookup_field}
use intelligent_rag_framewor.Spec.{IsStatus}
use intelligent_rag_framewor.Runtime.{RuleOutputTemplate, RequiredEvidenceTemplate}
use intelligent_rag_framewor.Loading.Header.{RuleSpec, score_of_number}
use intelligent_rag_framewor.Loading.Maps.{
  rule_id_map, rule_maturity_map, claim_type_map, claim_status_map, reason_code_map,
  required_evidence_map,
}
use intelligent_rag_framewor.Loading.Compile.{
  number_of, name_number, compile_rule_definition, compile_rule_output, compile_required_evidence,
  evidence_types_from, required_of, claim_block, lookup_str, block_at,
}
use intelligent_rag_framewor.Loading.Admitted.{IsUint16, score-in_unit}

-- the numbers of a table
abbrev pub All : (ℤ → Type 0) → Dict String ℤ → Type 0
All P [] = Unit
All P ((name, n) ∷ table) = P n × All P table

number_of-All :
    (P : ℤ → Type 0) (table : Dict String ℤ) (name : String) (n : ℤ)
    → All P table
    → number_of table name ≡ ok n
    → P n
unfolding lookup
number_of-All P [] name n h e = absurd (ground arith)
number_of-All P ((j, m) ∷ table) name n (own, h) e = elim (Bool-cases (j == name)) [
  | inl here ↦ let same : n ≡ m = ground arith in rw same own
  | inr other ↦ number_of-All P table name n h (ground arith)
]

types_known : All IsUint16 claim_type_map
types_known = omega arith

reasons_known : All IsUint16 reason_code_map
reasons_known = omega arith

statuses_known : All IsStatus claim_status_map
statuses_known = (inl refl, (inr (inl refl), (inr (inr (inl refl)), tt)))

module _ {F : Type 0} where
  name_number-All :
      (P : ℤ → Type 0) (table : Dict String ℤ) (v : Value F) (n : ℤ)
      → All P table
      → name_number table v ≡ ok n
      → P n
  name_number-All P table (Value.str name) n h e = number_of-All P table name n h e
  name_number-All P table Value.null n h e = absurd (ground arith)
  name_number-All P table (Value.bool _) n h e = absurd (ground arith)
  name_number-All P table (Value.int _) n h e = absurd (ground arith)
  name_number-All P table (Value.float _) n h e = absurd (ground arith)
  name_number-All P table (Value.list _) n h e = absurd (ground arith)
  name_number-All P table (Value.tuple _) n h e = absurd (ground arith)
  name_number-All P table (Value.mapping _) n h e = absurd (ground arith)

  lookup_str-All :
      (P : ℤ → Type 0) (block : Fields F) (field : String) (table : Dict String ℤ) (n : ℤ)
      → All P table
      → lookup_str block field table ≡ ok n
      → P n
  lookup_str-All P block field table n h e = elim (Option-cases (lookup_field field block)) [
    | inl missing ↦ absurd (ground arith)
    | inr (v, found) ↦ name_number-All P table v n h (ground arith)
  ]

  types_from-IsUint16 :
      (vs : Values F) (ns : List ℤ) → evidence_types_from vs ≡ ok ns → Every IsUint16 ns
  unfolding evidence_types_from
  types_from-IsUint16 Values.nil ns h = let e : ns ≡ [] = ground arith in rw e tt
  types_from-IsUint16 (Values.cons v vs) ns h =
      elim (Result-cases (name_number required_evidence_map v)) [
        | inr (e, failed) ↦ absurd (ground arith)
        | inl (n, read) ↦ elim (Result-cases (evidence_types_from vs)) [
          | inr (e, failed) ↦ absurd (ground arith)
          | inl (rest, reads) ↦
              let e : ns ≡ n ∷ rest = ground arith in
              rw e (
                name_number-All IsUint16 required_evidence_map v n (omega arith) read,
                types_from-IsUint16 vs rest reads,
              )
        ]
      ]

  required_of-IsUint16 :
      (v : Option (Value F)) (ns : List ℤ) → required_of v ≡ ok ns → Every IsUint16 ns
  required_of-IsUint16 none ns h = let e : ns ≡ [] = ground arith in rw e tt
  required_of-IsUint16 (some Value.null) ns h = let e : ns ≡ [] = ground arith in rw e tt
  required_of-IsUint16 (some (Value.list vs)) ns h = types_from-IsUint16 vs ns h
  required_of-IsUint16 (some (Value.str _)) ns h = absurd (ground arith)
  required_of-IsUint16 (some (Value.bool _)) ns h = absurd (ground arith)
  required_of-IsUint16 (some (Value.int _)) ns h = absurd (ground arith)
  required_of-IsUint16 (some (Value.float _)) ns h = absurd (ground arith)
  required_of-IsUint16 (some (Value.tuple _)) ns h = absurd (ground arith)
  required_of-IsUint16 (some (Value.mapping _)) ns h = absurd (ground arith)

  pub required-IsUint16 :
      (spec : RuleSpec F) (r : RequiredEvidenceTemplate)
      → compile_required_evidence spec ≡ ok r
      → Every IsUint16 r.evidence_types
  unfolding compile_required_evidence
  required-IsUint16 spec r h = elim (Option-cases (claim_block spec.raw)) [
    | inl missing ↦ let e : r.evidence_types ≡ [] = ground arith in rw e tt
    | inr (claim, found) ↦
        elim (Result-cases (required_of (lookup_field "required_evidence" claim))) [
          | inr (e, failed) ↦ absurd (ground arith)
          | inl (ns, read) ↦
              let e : r.evidence_types ≡ ns = ground arith in
              rw e (required_of-IsUint16 (lookup_field "required_evidence" claim) ns read)
        ]
  ]

abbrev pub IsMaturity : ℤ → Type 0
IsMaturity n =
    (n ≡ RuleMaturity.experimental) ⊎ ((n ≡ RuleMaturity.stable) ⊎ (n ≡ RuleMaturity.deprecated))

maturities_known : All IsMaturity rule_maturity_map
maturities_known = (inl refl, (inr (inl refl), (inr (inr refl), tt)))

ids_known : All IsUint16 rule_id_map
ids_known = omega arith

module _ {F : Type 0} where
  pub definition-IsDefinition :
      (spec : RuleSpec F) (d : RuleDefinition F)
      → compile_rule_definition spec ≡ ok d
      → IsUint16 d.id
        × IsMaturity d.maturity
        × (d.version ≡ spec.version)
        × (d.prior_confidence ≡ spec.prior_confidence)
  unfolding compile_rule_definition
  definition-IsDefinition spec d h = elim (Result-cases (number_of rule_id_map spec.id)) [
    | inr (e, failed) ↦ absurd (ground arith)
    | inl (n, read_id) ↦ elim (Result-cases (number_of rule_maturity_map spec.maturity)) [
      | inr (e, failed) ↦ absurd (ground arith)
      | inl (m, read_maturity) ↦
          let a : d.id ≡ n = ground arith in
          let b : d.maturity ≡ m = ground arith in
          rw (a, b)
            (
              number_of-All IsUint16 rule_id_map spec.id n ids_known read_id,
              number_of-All IsMaturity rule_maturity_map spec.maturity m maturities_known
                  read_maturity,
              ground arith,
              ground arith,
            )
    ]
  ]

module _ {F : Type 0} ⦃fl : Floats F⦄ where
  abbrev pub IsOutput : RuleOutputTemplate F → Type 0
  IsOutput o =
      IsUint16 o.claim_type
      × IsStatus o.status
      × IsUint16 o.reason_code
      × (in_unit o.base_confidence.value ≡ true)

  -- the fields of the claim's block, read in order
  pub compile_rule_output-IsOutput :
      (spec : RuleSpec F) (o : RuleOutputTemplate F) → compile_rule_output spec ≡ ok o → IsOutput o
  unfolding compile_rule_output
  compile_rule_output-IsOutput spec o h = elim (Result-cases (block_at "output" spec.raw)) [
    | inr (e, failed) ↦ absurd (ground arith)
    | inl (output, found) ↦ elim (Result-cases (block_at "claim" output)) [
      | inr (e, failed) ↦ absurd (ground arith)
      | inl (claim, there) ↦ elim (Result-cases (lookup_str claim "type" claim_type_map)) [
        | inr (e, failed) ↦ absurd (ground arith)
        | inl (t, read_type) ↦ elim (Result-cases (lookup_str claim "status" claim_status_map)) [
          | inr (e, failed) ↦ absurd (ground arith)
          | inl (st, read_status) ↦
              elim (Result-cases (lookup_str claim "reason_code" reason_code_map)) [
                | inr (e, failed) ↦ absurd (ground arith)
                | inl (n, read_reason) ↦
                    elim (Option-cases (lookup_field "base_confidence" claim)) [
                      | inl missing ↦ absurd (ground arith)
                      | inr (v, has) ↦ elim (Result-cases (score_of_number v)) [
                        | inr (e, failed) ↦ absurd (ground arith)
                        | inl (sv, read_score) ↦
                            let a : o.claim_type ≡ t = ground arith in
                            let b : o.status ≡ st = ground arith in
                            let c : o.reason_code ≡ n = ground arith in
                            let d : o.base_confidence ≡ sv = ground arith in
                            rw (a, b, c, d)
                              (
                                lookup_str-All IsUint16 claim "type" claim_type_map t types_known
                                    read_type,
                                lookup_str-All IsStatus claim "status" claim_status_map st
                                    statuses_known read_status,
                                lookup_str-All IsUint16 claim "reason_code" reason_code_map n
                                    reasons_known read_reason,
                                score-in_unit v sv read_score,
                              )
                      ]
                    ]
              ]
        ]
      ]
    ]
  ]
