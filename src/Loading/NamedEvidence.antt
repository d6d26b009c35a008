-- ===== src/Loading/NamedEvidence.antt =====
-- `compile_required_evidence` of ragcore/rule_gap.py against a description of the list that it reads.
use intelligent_rag_framewor.Prelude.{
  ℤ, String, ◌≡◌, refl, ap, ◌∙◌, ◌⊎◌, inl, inr, none, some, List, Result, ok, [], ◌∷◌, arith,
  int_eq, string_eq, Result-cases, Option-cases, and_then_inv,
}
use intelligent_rag_framewor.Prelude.Dict.{Dict}
use intelligent_rag_framewor.Value.{Value, Values, Fields}
use intelligent_rag_framewor.Value.Comparison.{lookup_field}
use intelligent_rag_framewor.Runtime.{RequiredEvidenceTemplate}
use intelligent_rag_framewor.Loading.Header.{RuleSpec}
use intelligent_rag_framewor.Loading.Maps.{required_evidence_map}
use intelligent_rag_framewor.Loading.Compile.{
  name_number, compile_required_evidence, evidence_types_from, required_of, claim_block,
}
use intelligent_rag_framewor.Loading.Names.{
  Names, HasClaim, name_number_inv, named_number, claim_block_inv, claim_block_at,
}

module _ {F : Type 0} where
  -- the texts of a list, each with its number, in the order of the list
  abbrev pub EachNames : Dict String ℤ → Values F → List ℤ → Type 0
  EachNames table Values.nil [] = Unit
  EachNames table (Values.cons v vs) (n ∷ ns) = Names table v n × EachNames table vs ns
  EachNames table Values.nil (n ∷ ns) = ⊥
  EachNames table (Values.cons v vs) [] = ⊥

  -- a list of required evidence is there, and holds such texts; or there is none, and no types
  abbrev pub EvidenceOf : Fields F → List ℤ → Type 0
  EvidenceOf raw ns =
      ((claim : Fields F) × (vs : Values F) × HasClaim raw claim
        × (lookup_field "required_evidence" claim ≡ some (Value.list vs))
        × EachNames required_evidence_map vs ns)
      ⊎ ((ns ≡ [])
          × (((claim : Fields F) → HasClaim raw claim → ⊥)
              ⊎ ((claim : Fields F) × HasClaim raw claim
                  × ((lookup_field "required_evidence" claim ≡ none)
                      ⊎ (lookup_field "required_evidence" claim ≡ some Value.null)))))

  types_inv :
      (vs : Values F) (ns : List ℤ)
      → evidence_types_from vs ≡ ok ns
      → EachNames required_evidence_map vs ns
  unfolding evidence_types_from
  types_inv Values.nil [] h = tt
  types_inv Values.nil (n ∷ ns) h = absurd (ground arith)
  types_inv (Values.cons v vs) [] h =
      let (n, read, a) = and_then_inv (name_number required_evidence_map v) _ [] h in
      let (rest, more, b) = and_then_inv (evidence_types_from vs) (λ ms. ok (n ∷ ms)) [] a in
      absurd (ground arith)
  types_inv (Values.cons v vs) (m ∷ ns) h =
      let (n, read, a) = and_then_inv (name_number required_evidence_map v) _ (m ∷ ns) h in
      let (rest, more, b) = and_then_inv (evidence_types_from vs) (λ ms. ok (n ∷ ms)) (m ∷ ns) a in
      let p : n ≡ m = ground arith in
      let q : rest ≡ ns = ground arith in
      (
        name_number_inv required_evidence_map v m (read ∙ ap {B = Result ℤ} ok p),
        types_inv vs ns (more ∙ ap {B = Result (List ℤ)} ok q),
      )

  types_made :
      (vs : Values F) (ns : List ℤ)
      → EachNames required_evidence_map vs ns
      → evidence_types_from vs ≡ ok ns
  unfolding evidence_types_from
  types_made Values.nil [] h = refl
  types_made (Values.cons v vs) (n ∷ ns) (named, h) =
      ground (arith, named_number required_evidence_map v n named, types_made vs ns h)
  types_made Values.nil (n ∷ ns) h = elim h [ ]
  types_made (Values.cons v vs) [] h = elim h [ ]

  -- what is under the key of the required evidence
  required_inv :
      (claim : Fields F) (ns : List ℤ)
      → required_of (lookup_field "required_evidence" claim) ≡ ok ns
      → ((vs : Values F) × (lookup_field "required_evidence" claim ≡ some (Value.list vs))
          × EachNames required_evidence_map vs ns)
        ⊎ ((ns ≡ [])
            × ((lookup_field "required_evidence" claim ≡ none)
                ⊎ (lookup_field "required_evidence" claim ≡ some Value.null)))
  required_inv claim ns h = elim (Option-cases (lookup_field "required_evidence" claim)) [
    | inl missing ↦ inr (ground arith, inl missing)
    | inr (Value.null, found) ↦ inr (ground arith, inr found)
    | inr (Value.list vs, found) ↦ inl (vs, found, types_inv vs ns (ground arith))
    | inr (Value.bool _, found) ↦ absurd (ground arith)
    | inr (Value.int _, found) ↦ absurd (ground arith)
    | inr (Value.float _, found) ↦ absurd (ground arith)
    | inr (Value.str _, found) ↦ absurd (ground arith)
    | inr (Value.tuple _, found) ↦ absurd (ground arith)
    | inr (Value.mapping _, found) ↦ absurd (ground arith)
  ]

  pub evidence_inv :
      (spec : RuleSpec F) (r : RequiredEvidenceTemplate)
      → compile_required_evidence spec ≡ ok r
      → EvidenceOf spec.raw r.evidence_types
  unfolding compile_required_evidence
  evidence_inv spec r h = elim (Option-cases (claim_block spec.raw)) [
    | inl missing ↦
        inr (ground arith, inl (λ claim there. ground (arith, claim_block_at spec.raw claim there)))
    | inr (claim, found) ↦
        elim (required_inv claim r.evidence_types
          (ground (arith, Result-cases (required_of (lookup_field "required_evidence" claim))))) [
            | inl (vs, listed, named) ↦
                inl (claim, vs, claim_block_inv spec.raw claim found, listed, named)
            | inr (empty, none_there) ↦
                inr (empty, inr (claim, claim_block_inv spec.raw claim found, none_there))
          ]
  ]

  pub evidence_made :
      (spec : RuleSpec F) (r : RequiredEvidenceTemplate)
      → EvidenceOf spec.raw r.evidence_types
      → compile_required_evidence spec ≡ ok r
  unfolding compile_required_evidence
  evidence_made spec r (inl (claim, vs, there, listed, named)) =
      ground (arith, claim_block_at spec.raw claim there, types_made vs r.evidence_types named)
  evidence_made spec r (inr (empty, inl no_claim)) = elim (Option-cases (claim_block spec.raw)) [
    | inl missing ↦ ground arith
    | inr (claim, found) ↦ absurd (no_claim claim (claim_block_inv spec.raw claim found))
  ]
  evidence_made spec r (inr (empty, inr (claim, there, inl missing))) =
      ground (arith, claim_block_at spec.raw claim there)
  evidence_made spec r (inr (empty, inr (claim, there, inr null))) =
      ground (arith, claim_block_at spec.raw claim there)
