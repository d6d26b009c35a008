-- ===== src/Session/Refinement/Gaps.antt =====
-- The calls of ragcore/_engine/gaps.py, as steps of the abstract machine.
use intelligent_rag_framewor.Prelude.{
  ℤ, pos, ◌+ℤ◌, ◌≡◌, refl, ◌⊎◌, inl, inr, true, none, some, [], arith, int_eq, string_eq, quad_eq,
  elem-nil, Option-cases, adjoin,
}
use intelligent_rag_framewor.Prelude.Dict.{
  lookup, get_or, setdefault_known, get_or-setdefault, insert-setdefault, get_or_unknown,
}
use intelligent_rag_framewor.Floats.{Floats, in_unit}
use intelligent_rag_framewor.Types.{Claim, Gap, score_value}
use intelligent_rag_framewor.Engine.State.{Engine, last_id}
use intelligent_rag_framewor.Engine.Gaps.{reuse_gap, create_gap, add_gap}
use intelligent_rag_framewor.Spec.{Step, Steps, counted, with_ref, with_gap}

module _ {F : Type 0} ⦃fl : Floats F⦄ (s : Engine F) where
  abbrev revised : Engine F → Engine F
  revised t = record t { state_revision = s.state_revision +ℤ pos 1 }

  reuse_gap_outcome :
      (c g : ℤ) → ((reuse_gap c g s).1 ≡ s) ⊎ ((reuse_gap c g s).1 ≡ revised (with_ref s c g))
  unfolding reuse_gap
  reuse_gap_outcome c g = ground (
    arith,
    setdefault_known c [] s.claim_gap_refs,
    get_or-setdefault c c [] s.claim_gap_refs,
    elem-nil g,
    get_or_unknown s.claim_gap_refs c [],
    insert-setdefault c (adjoin g (get_or s.claim_gap_refs c [])) [] s.claim_gap_refs,
  )

  abbrev new_gap : ℤ → ℤ → ℤ → F → ℤ → Gap F
  new_gap claim_id type required_evidence_type severity rule_id = record {
    id = last_id "gap" s +ℤ pos 1;
    claim_id = claim_id;
    type = type;
    required_evidence_type = required_evidence_type;
    severity = record { value = severity };
    created_by_rule = rule_id;
  }

  -- What a call of `add_gap` comes to, by the claim and the entry of the dedup index.
  add_gap_hit :
      (c t e : ℤ) (x : F) (r : ℤ) (claim : Claim F) (g : ℤ)
      → lookup c s.claims ≡ some claim
      → lookup (claim.subject_id, r, t, e) s.gap_dedup_index ≡ some g
      → ((add_gap c t e x r s).1 ≡ s) ⊎ ((add_gap c t e x r s).1 ≡ (reuse_gap c g s).1)
  unfolding add_gap
  add_gap_hit c t e x r claim g known hit = ground arith

  add_gap_miss :
      (c t e : ℤ) (x : F) (r : ℤ) (claim : Claim F)
      → lookup c s.claims ≡ some claim
      → lookup (claim.subject_id, r, t, e) s.gap_dedup_index ≡ none
      → ((add_gap c t e x r s).1 ≡ s)
        ⊎ (((add_gap c t e x r s).1 ≡ revised (with_gap s claim (new_gap c t e x r)))
            × (in_unit x ≡ true))
  unfolding add_gap create_gap score_value
  add_gap_miss c t e x r claim known miss = ground arith

  add_gap_unknown :
      (c t e : ℤ) (x : F) (r : ℤ) → lookup c s.claims ≡ none → (add_gap c t e x r s).1 ≡ s
  unfolding add_gap
  add_gap_unknown c t e x r unknown = ground arith

  reuse_gap-Steps :
      (c : ℤ) (claim : Claim F) (g r t e : ℤ)
      → lookup c s.claims ≡ some claim
      → lookup (claim.subject_id, r, t, e) s.gap_dedup_index ≡ some g
      → Steps s (reuse_gap c g s).1
  reuse_gap-Steps c claim g r t e known hit = elim (reuse_gap_outcome c g) [
    | inl same ↦ rw same Steps.here
    | inr new ↦ rw new (counted (Step.refer c claim g r t e known hit))
  ]

  pub add_gap-Steps : (c t e : ℤ) (x : F) (r : ℤ) → Steps s (add_gap c t e x r s).1
  add_gap-Steps c t e x r = elim (Option-cases (lookup c s.claims)) [
    | inl unknown ↦ rw (add_gap_unknown c t e x r unknown) Steps.here
    | inr (claim, known) ↦
        elim (Option-cases (lookup (claim.subject_id, r, t, e) s.gap_dedup_index)) [
          | inl miss ↦ elim (add_gap_miss c t e x r claim known miss) [
            | inl same ↦ rw same Steps.here
            | inr (new, score) ↦
                rw new (counted (Step.add_gap claim (new_gap c t e x r) refl known miss score))
          ]
          | inr (g, hit) ↦ elim (add_gap_hit c t e x r claim g known hit) [
            | inl same ↦ rw same Steps.here
            | inr reused ↦ rw reused (reuse_gap-Steps c claim g r t e known hit)
          ]
        ]
  ]
