-- ===== src/Session/Revision/Gaps.antt =====
-- What the calls of ragcore/_engine/gaps.py do to the revision.
use intelligent_rag_framewor.Prelude.{
  ℤ, List, [], ◌∷◌, ◌≡◌, refl, Result, ok, raise, arith, is_empty, int_eq, true, is_empty-sort,
  elem-nil,
}
use intelligent_rag_framewor.Prelude.Dict.{setdefault_known, get_or-setdefault, get_or_unknown}
use intelligent_rag_framewor.Floats.{Floats}
use intelligent_rag_framewor.Types.{Evidence, Gap, ScoreValue}
use intelligent_rag_framewor.Engine.State.{Engine}
use intelligent_rag_framewor.Engine.Gaps
use intelligent_rag_framewor.Session.Revision.Crud.{Counted}

module _ {F : Type 0} (s : Engine F) where
  reuse_gap-Counted : (c g : ℤ) → Counted s (Gaps.reuse_gap c g s)
  unfolding Gaps.reuse_gap
  reuse_gap-Counted c g = ground (
    arith,
    setdefault_known c [] s.claim_gap_refs,
    get_or-setdefault c c [] s.claim_gap_refs,
    get_or_unknown s.claim_gap_refs c [],
    elem-nil g,
  )

  create_gap-Counted :
      (c t e : ℤ) (x : ScoreValue F) (r : ℤ) (key : ℤ × ℤ × ℤ × ℤ)
      → Counted s (Gaps.create_gap c t e x r key s)
  unfolding Gaps.create_gap
  create_gap-Counted c t e x r key = ground arith

  pub add_gap-Counted :
      ⦃fl : Floats F⦄ (c t e : ℤ) (x : F) (r : ℤ) → Counted s (Gaps.add_gap c t e x r s)
  unfolding Gaps.add_gap
  add_gap-Counted c t e x r = grind (arith, reuse_gap-Counted, create_gap-Counted)

  -- The reads leave the engine alone.
  pub gaps_at_reads : (ids : List ℤ) → (Gaps.gaps_at ids s).1 ≡ s
  unfolding Gaps.gaps_at
  gaps_at_reads [] = refl
  gaps_at_reads (g ∷ ids) = ground (arith, gaps_at_reads ids)

  pub gaps_for_claim_reads : (c : ℤ) → (Gaps.gaps_for_claim c s).1 ≡ s
  unfolding Gaps.gaps_for_claim
  gaps_for_claim_reads c = grind (arith, gaps_at_reads)

  pub gap_resolution_reads : (g : ℤ) → (Gaps.gap_resolution g s).1 ≡ s
  unfolding Gaps.gap_resolution
  gap_resolution_reads g = ground arith

-- The loop of `resolve_gaps_for_evidence` raises nothing and keeps the revision, and where it
-- reports no gap it has changed nothing.
abbrev Resolves : {F : Type 0} → Engine F → Result (List ℤ) × Engine F → Type 0
Resolves s (raise e, s') = ⊥
Resolves s (ok ids, s') = (s'.state_revision ≡ s.state_revision) × (is_empty ids ≡ true → s' ≡ s)

module _ {F : Type 0} (i : ℤ) (ev : Evidence F) where
  resolve_each-Resolves :
      (gs : List (Gap F)) (s : Engine F) → Resolves s (Gaps.resolve_each i ev gs s)
  unfolding Gaps.resolve_each Gaps.resolve_gap
  resolve_each-Resolves [] s = (refl, λ _. refl)
  resolve_each-Resolves (g ∷ gs) s =
      ground
        (arith, resolve_each-Resolves gs s, resolve_each-Resolves gs (Gaps.resolve_gap i ev g s).1)

module _ {F : Type 0} (s : Engine F) where
  pub resolve_gaps_for_evidence-Counted : (i : ℤ) → Counted s (Gaps.resolve_gaps_for_evidence i s)
  unfolding Gaps.resolve_gaps_for_evidence
  resolve_gaps_for_evidence-Counted i =
      grind (arith, gaps_for_claim_reads, resolve_each-Resolves, is_empty-sort)
