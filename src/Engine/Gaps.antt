-- ===== src/Engine/Gaps.antt =====
-- ragcore/_engine/gaps.py: gaps with their dedup index, the references of claims, resolution.
use intelligent_rag_framewor.Prelude.{
  ℤ, List, [], ◌∷◌, ◌++◌, Option, none, some, int_eq, string_eq, quad_eq, ◌==◌, if◌then◌else◌, elem,
  adjoin, sort, sort_by, is_empty, not,
}
use intelligent_rag_framewor.Prelude.Dict.{lookup, contains, insert, get_or, setdefault}
use intelligent_rag_framewor.Floats.{Floats}
use intelligent_rag_framewor.Types.{Gap, Evidence, ScoreValue, score_value}
use intelligent_rag_framewor.Engine.State.{
  Call, ◌>>=◌, ◌>>◌, pure, lift, gets, item, modify, allocate_id, advance_state_revision,
  assert_claim_exists, assert_evidence_exists, assert_gap_exists,
}

module _ {F : Type 0} where
  -- a dedup hit: the claim comes to refer to the gap
  unfoldable pub reuse_gap : ℤ → ℤ → Call F ℤ
  unfolding advance_state_revision
  reuse_gap claim_id existing_gap_id = do
    modify (λ s. record s { claim_gap_refs = setdefault claim_id [] s.claim_gap_refs })
    refs ← gets (λ s. get_or s.claim_gap_refs claim_id [])
    if elem existing_gap_id refs then pure existing_gap_id else do
      modify (λ s. record s {
        claim_gap_refs = insert claim_id (adjoin existing_gap_id refs) s.claim_gap_refs;
      })
      advance_state_revision
      pure existing_gap_id

  -- a dedup miss
  unfoldable pub create_gap : ℤ → ℤ → ℤ → ScoreValue F → ℤ → ℤ × ℤ × ℤ × ℤ → Call F ℤ
  unfolding allocate_id advance_state_revision
  create_gap claim_id gap_type required_evidence_type severity rule_id key = do
    gap_id ← allocate_id "gap"
    modify (λ s. record s {
      gaps =
          insert gap_id
            (record {
              id = gap_id;
              claim_id = claim_id;
              type = gap_type;
              required_evidence_type = required_evidence_type;
              severity = severity;
              created_by_rule = rule_id;
            })
            s.gaps;
      gap_dedup_index = insert key gap_id s.gap_dedup_index;
      claim_gap_refs =
          insert claim_id (adjoin gap_id (get_or s.claim_gap_refs claim_id [])) s.claim_gap_refs;
    })
    advance_state_revision
    pure gap_id

  unfoldable pub add_gap : ⦃fl : Floats F⦄ → ℤ → ℤ → ℤ → F → ℤ → Call F ℤ
  unfolding assert_claim_exists
  add_gap claim_id gap_type required_evidence_type severity rule_id = do
    assert_claim_exists claim_id
    validated_severity ← lift (score_value severity)
    found ← gets (λ s. lookup claim_id s.claims)
    claim ← item found
    let key : ℤ × ℤ × ℤ × ℤ = (claim.subject_id, rule_id, gap_type, required_evidence_type)
    indexed ← gets (λ s. lookup key s.gap_dedup_index)
    elim indexed [
      | some existing_gap_id ↦ reuse_gap claim_id existing_gap_id
      | none ↦ create_gap claim_id gap_type required_evidence_type validated_severity rule_id key
    ]

  unfoldable pub get_gap : ℤ → Call F (Gap F)
  get_gap gap_id = do found ← gets (λ s. lookup gap_id s.gaps); item found

  -- `self._gaps[gid] for gid in gap_ids`
  unfoldable pub gaps_at : List ℤ → Call F (List (Gap F))
  gaps_at [] = pure []
  gaps_at (gid ∷ gap_ids) = do
    found ← gets (λ s. lookup gid s.gaps)
    gap ← item found
    rest ← gaps_at gap_ids
    pure (gap ∷ rest)

  unfoldable pub gaps_for_claim : ℤ → Call F (List (Gap F))
  unfolding assert_claim_exists
  gaps_for_claim claim_id = do
    assert_claim_exists claim_id
    gap_ids ← gets (λ s. get_or s.claim_gap_refs claim_id [])
    gaps ← gaps_at gap_ids
    pure (sort_by (λ g. g.id) gaps)

  -- one round of the loop of `resolve_gaps_for_evidence`: the gap id, if it is newly resolved
  unfoldable pub resolve_gap : ℤ → Evidence F → Gap F → Call F (List ℤ)
  resolve_gap evidence_id evidence gap = do
    known ← gets (λ s. contains gap.id s.gap_resolutions)
    if not (gap.required_evidence_type == evidence.type)
        then pure []
        else if known
        then pure []
        else do
          modify (λ s. record s { gap_resolutions = insert gap.id evidence_id s.gap_resolutions })
          pure (gap.id ∷ [])

  unfoldable pub resolve_each : ℤ → Evidence F → List (Gap F) → Call F (List ℤ)
  resolve_each evidence_id evidence [] = pure []
  resolve_each evidence_id evidence (gap ∷ gaps) = do
    new ← resolve_gap evidence_id evidence gap
    rest ← resolve_each evidence_id evidence gaps
    pure (new ++ rest)

  unfoldable pub resolve_gaps_for_evidence : ℤ → Call F (List ℤ)
  unfolding assert_evidence_exists advance_state_revision
  resolve_gaps_for_evidence evidence_id = do
    assert_evidence_exists evidence_id
    found ← gets (λ s. lookup evidence_id s.evidences)
    evidence ← item found
    gaps ← gaps_for_claim evidence.claim_id
    newly_resolved ← resolve_each evidence_id evidence gaps
    let sorted = sort newly_resolved
    if is_empty sorted then pure sorted else do advance_state_revision; pure sorted

  unfoldable pub gap_resolution : ℤ → Call F (Option ℤ)
  unfolding assert_gap_exists
  gap_resolution gap_id = do assert_gap_exists gap_id; gets (λ s. lookup gap_id s.gap_resolutions)
