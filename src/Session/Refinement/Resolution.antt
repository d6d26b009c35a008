-- ===== src/Session/Refinement/Resolution.antt =====
-- `resolve_gaps_for_evidence` of ragcore/_engine/gaps.py, as steps of the abstract machine.
use intelligent_rag_framewor.Prelude.{
  ℤ, pos, ◌+ℤ◌, ◌≡◌, refl, ◌⊎◌, inl, inr, none, some, List, [], ◌∷◌, ok, raise, arith, int_eq,
  eqb_ℤ_iff, Every, Option-cases, Result-cases,
}
use intelligent_rag_framewor.Prelude.Dict.{lookup}
use intelligent_rag_framewor.Floats.{Floats}
use intelligent_rag_framewor.Types.{Evidence, Gap}
use intelligent_rag_framewor.Engine.State.{Engine}
use intelligent_rag_framewor.Engine.Gaps.{
  gaps_for_claim, resolve_gap, resolve_each, resolve_gaps_for_evidence,
}
use intelligent_rag_framewor.Session.Revision.{gaps_for_claim_reads}
use intelligent_rag_framewor.Session.Refinement.Reads.{Referred, gaps_for_claim-Referred}
use intelligent_rag_framewor.Spec.{Step, Steps, Steps-trans, one_step, with_resolution}
use intelligent_rag_framewor.Spec.Valid.{IsValid}

module _ {F : Type 0} ⦃fl : Floats F⦄ (i : ℤ) (ev : Evidence F) where
  resolve_gap_outcome :
      (g : Gap F) (s : Engine F)
      → ((resolve_gap i ev g s).1 ≡ s)
        ⊎ (((resolve_gap i ev g s).1 ≡ with_resolution s g.id i)
            × (g.required_evidence_type ≡ ev.type)
            × (lookup g.id s.gap_resolutions ≡ none))
  unfolding resolve_gap
  resolve_gap_outcome g s = ground (arith, eqb_ℤ_iff g.required_evidence_type ev.type)

  resolve_each_ok :
      (gs : List (Gap F)) (s : Engine F) → (ids : List ℤ) × ((resolve_each i ev gs s).0 ≡ ok ids)
  unfolding resolve_each resolve_gap
  resolve_each_ok [] s = ([], refl)
  resolve_each_ok (g ∷ gs) s = elim (Result-cases (resolve_each i ev (g ∷ gs) s).0) [
    | inl (ids, h) ↦ (ids, h)
    | inr (e, h) ↦ ground (arith, resolve_each_ok gs (resolve_gap i ev g s).1)
  ]

  resolve_each_cons :
      (g : Gap F) (gs : List (Gap F)) (s : Engine F)
      → (resolve_each i ev (g ∷ gs) s).1 ≡ (resolve_each i ev gs (resolve_gap i ev g s).1).1
  unfolding resolve_each resolve_gap
  resolve_each_cons g gs s =
      ground (arith, resolve_each_ok gs s, resolve_each_ok gs (with_resolution s g.id i))

  -- Each round resolves a gap of the claim that wants the type of the evidence and has no resolution.
  resolve_each-Steps :
      (gs : List (Gap F)) (s : Engine F)
      → lookup i s.evidences ≡ some ev
      → Every (Referred s ev.claim_id) gs
      → Steps s (resolve_each i ev gs s).1
  unfolding resolve_each
  resolve_each-Steps [] s known every = Steps.here
  resolve_each-Steps (g ∷ gs) s known ((stored, referred), every) =
      rw (resolve_each_cons g gs s) (elim (resolve_gap_outcome g s) [
        | inl same ↦ rw same (resolve_each-Steps gs s known every)
        | inr (new, type, free) ↦ rw new (
            Steps-trans (one_step (Step.resolve i ev g.id g known stored type referred free))
              (resolve_each-Steps gs (with_resolution s g.id i) known every))
      ])

  resolve_gaps_outcome :
      (s : Engine F) (gs : List (Gap F))
      → lookup i s.evidences ≡ some ev
      → (gaps_for_claim ev.claim_id s).0 ≡ ok gs
      → let t = (resolve_each i ev gs s).1 in
        ((resolve_gaps_for_evidence i s).1 ≡ t)
        ⊎ ((resolve_gaps_for_evidence i s).1
            ≡ record t { state_revision = t.state_revision +ℤ pos 1 })
  unfolding resolve_gaps_for_evidence
  resolve_gaps_outcome s gs known read =
      ground (arith, gaps_for_claim_reads s ev.claim_id, resolve_each_ok gs s)

  resolve_gaps_failed :
      (s : Engine F)
      → lookup i s.evidences ≡ some ev
      → {e : _} → (gaps_for_claim ev.claim_id s).0 ≡ raise e
      → (resolve_gaps_for_evidence i s).1 ≡ s
  unfolding resolve_gaps_for_evidence
  resolve_gaps_failed s known failed = ground (arith, gaps_for_claim_reads s ev.claim_id)

module _ {F : Type 0} ⦃fl : Floats F⦄ (s : Engine F) (v : IsValid s) (i : ℤ) where
  resolve_gaps_unknown : lookup i s.evidences ≡ none → (resolve_gaps_for_evidence i s).1 ≡ s
  unfolding resolve_gaps_for_evidence
  resolve_gaps_unknown unknown = ground arith

  pub resolve_gaps_for_evidence-Steps : Steps s (resolve_gaps_for_evidence i s).1
  resolve_gaps_for_evidence-Steps = elim (Option-cases (lookup i s.evidences)) [
    | inl unknown ↦ rw (resolve_gaps_unknown unknown) Steps.here
    | inr (ev, known) ↦ elim (Result-cases (gaps_for_claim ev.claim_id s).0) [
      | inr (e, failed) ↦ rw (resolve_gaps_failed i ev s known failed) Steps.here
      | inl (gs, read) ↦
          let steps : Steps s (resolve_each i ev gs s).1 =
            resolve_each-Steps i ev gs s known (gaps_for_claim-Referred s v ev.claim_id gs read) in
          elim (resolve_gaps_outcome i ev s gs known read) [
            | inl same ↦ rw same steps
            | inr new ↦ rw new (Steps.next steps Step.advance)
          ]
    ]
  ]
