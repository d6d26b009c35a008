-- ===== src/Loading/Named.antt =====
-- The compilers of ragcore/rule_compile.py, ragcore/rule_output.py and ragcore/rule_gap.py against a
-- direct description of what they give: the numbers that the names of the spec have in the tables.
use intelligent_rag_framewor.Prelude.{
  ℤ, ◌≡◌, ◌↔◌, ap, ◌∙◌, inl, inr, not, some, Result, ok, [], ◌∷◌, arith, int_eq, string_eq,
  Option-cases, Every, and_then_inv, all, raise_if, value_error, is_some,
}
use intelligent_rag_framewor.Prelude.Dict.{lookup}
use intelligent_rag_framewor.Floats.{Floats}
use intelligent_rag_framewor.Types.{RuleDefinition}
use intelligent_rag_framewor.Value.{Value, Fields}
use intelligent_rag_framewor.Value.Comparison.{lookup_field}
use intelligent_rag_framewor.Runtime.{RuleOutputTemplate, RequiredEvidenceTemplate}
use intelligent_rag_framewor.Loading.Tree.{value_at}
use intelligent_rag_framewor.Loading.Header.{RuleSpec, score_of_number}
use intelligent_rag_framewor.Loading.Maps.{
  rule_id_map, rule_maturity_map, claim_type_map, claim_status_map, reason_code_map,
}
use intelligent_rag_framewor.Loading.Compile.{
  compile_rule_definition, compile_rule_output, compile_required_evidence, lookup_str, block_at,
}
use intelligent_rag_framewor.Loading.Admitted.{IsUint16}
use intelligent_rag_framewor.Loading.Compiled.{
  IsMaturity, IsOutput, compile_rule_output-IsOutput, required-IsUint16, definition-IsDefinition,
}
use intelligent_rag_framewor.Loading.Names.{
  FieldNames, HasClaim, named_number, value_at_inv, lookup_str_inv, block_at_inv,
}
use intelligent_rag_framewor.Loading.NamedEvidence.{EvidenceOf, evidence_inv, evidence_made}

module _ {F : Type 0} ⦃fl : Floats F⦄ where
  -- What a compiled output is made of: the three names, by their tables, and the score.
  abbrev pub OutputOf : Fields F → RuleOutputTemplate F → Type 0
  OutputOf raw o =
      (claim : Fields F) × HasClaim raw claim
      × FieldNames claim "type" claim_type_map o.claim_type
      × FieldNames claim "status" claim_status_map o.status
      × FieldNames claim "reason_code" reason_code_map o.reason_code
      × (v : Value F) × (lookup_field "base_confidence" claim ≡ some v)
      × (score_of_number v ≡ ok o.base_confidence)

  output_inv :
      (spec : RuleSpec F) (o : RuleOutputTemplate F)
      → compile_rule_output spec ≡ ok o
      → OutputOf spec.raw o
  unfolding compile_rule_output
  output_inv spec o h =
      let (output, output_read, a) = and_then_inv (block_at "output" spec.raw) _ o h in
      let (claim, claim_read, b) = and_then_inv (block_at "claim" output) _ o a in
      let (_, _, c) =
        and_then_inv
          (raise_if
            (not (
              all (λ k. is_some (lookup_field k claim))
                ("type" ∷ "status" ∷ "base_confidence" ∷ "reason_code" ∷ [])))
            value_error)
          _ o b in
      let (claim_type, type_read, d) =
        and_then_inv (lookup_str claim "type" claim_type_map) _ o c in
      let (status, status_read, e) =
        and_then_inv (lookup_str claim "status" claim_status_map) _ o d in
      let (reason, reason_read, f) =
        and_then_inv (lookup_str claim "reason_code" reason_code_map) _ o e in
      let (v, v_read, g) = and_then_inv (value_at "base_confidence" claim) _ o f in
      let (score, score_read, i) = and_then_inv (score_of_number v) _ o g in
      let p : claim_type ≡ o.claim_type = ground arith in
      let q : status ≡ o.status = ground arith in
      let r : reason ≡ o.reason_code = ground arith in
      let t : score ≡ o.base_confidence = ground arith in
      (
        claim,
        (
          output,
          block_at_inv "output" spec.raw output output_read,
          block_at_inv "claim" output claim claim_read,
        ),
        lookup_str_inv claim "type" claim_type_map o.claim_type
            (type_read ∙ ap {B = Result ℤ} ok p),
        lookup_str_inv claim "status" claim_status_map o.status
            (status_read ∙ ap {B = Result ℤ} ok q),
        lookup_str_inv claim "reason_code" reason_code_map o.reason_code
            (reason_read ∙ ap {B = Result ℤ} ok r),
        v,
        value_at_inv "base_confidence" claim v v_read,
        score_read ∙ ap ok t,
      )

  output_made :
      (spec : RuleSpec F) (o : RuleOutputTemplate F)
      → OutputOf spec.raw o
      → compile_rule_output spec ≡ ok o
  unfolding compile_rule_output all
  output_made spec o
        (
          claim,
          (output, outer, inner),
          (t, has_type, type),
          (st, has_status, status),
          (r, has_reason, reason),
          v,
          has_score,
          score,
        ) =
      ground (
        arith,
        named_number claim_type_map t o.claim_type type,
        named_number claim_status_map st o.status status,
        named_number reason_code_map r o.reason_code reason,
      )

module _ {F : Type 0} where
  -- What a compiled definition is made of.
  abbrev pub DefinitionOf : RuleSpec F → RuleDefinition F → Type 0
  DefinitionOf spec d =
      (lookup spec.id rule_id_map ≡ some d.id)
      × (lookup spec.maturity rule_maturity_map ≡ some d.maturity)
      × (d.version ≡ spec.version)
      × (d.prior_confidence ≡ spec.prior_confidence)

  definition_inv :
      (spec : RuleSpec F) (d : RuleDefinition F)
      → compile_rule_definition spec ≡ ok d
      → DefinitionOf spec d
  unfolding compile_rule_definition
  definition_inv spec d h = elim (Option-cases (lookup spec.id rule_id_map)) [
    | inl missing ↦ absurd (ground arith)
    | inr (n, found) ↦ elim (Option-cases (lookup spec.maturity rule_maturity_map)) [
      | inl missing ↦ absurd (ground arith)
      | inr (m, known) ↦ (ground arith, ground arith, ground arith, ground arith)
    ]
  ]

  definition_made :
      (spec : RuleSpec F) (d : RuleDefinition F)
      → DefinitionOf spec d
      → compile_rule_definition spec ≡ ok d
  unfolding compile_rule_definition
  definition_made spec d (id, maturity, version, prior) = ground arith

module _ {F : Type 0} ⦃fl : Floats F⦄ where
  -- `compile_rule_output` returns a template exactly if the spec has a claim's block whose type, status
  -- and reason code are names of their tables, with the template's numbers, and whose base confidence
  -- is read to the template's score. `compile_required_evidence` returns a template exactly if the
  -- claim's block has a list of names whose numbers, in order, are the template's types, or there is
  -- no block, no entry or null there, and the template is empty. `compile_rule_definition` returns a
  -- definition exactly if its id and maturity are the numbers of the spec's names, and its version and
  -- prior confidence are the spec's. What is returned is in range: ids, types and codes from 1 to
  -- 65535, an admissible status, a score in the unit interval, and a known maturity.
  pub compile_lem :
      (spec : RuleSpec F) (o : RuleOutputTemplate F) (r : RequiredEvidenceTemplate)
      (d : RuleDefinition F)
      → ((compile_rule_output spec ≡ ok o) ↔ (OutputOf spec.raw o × IsOutput o))
        × ((compile_required_evidence spec ≡ ok r)
            ↔ (EvidenceOf spec.raw r.evidence_types × Every IsUint16 r.evidence_types))
        × ((compile_rule_definition spec ≡ ok d)
            ↔ (DefinitionOf spec d × IsUint16 d.id × IsMaturity d.maturity))
  compile_lem spec o r d = (
    (
      λ h. (output_inv spec o h, compile_rule_output-IsOutput spec o h),
      λ (made, _). output_made spec o made,
    ),
    (
      λ h. (evidence_inv spec r h, required-IsUint16 spec r h),
      λ (made, _). evidence_made spec r made,
    ),
    (
      λ h.
          let (id, maturity, _, _) = definition-IsDefinition spec d h in
          (definition_inv spec d h, id, maturity),
      λ (made, _, _). definition_made spec d made,
    ),
  )
