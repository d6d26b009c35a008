-- ===== src/Engine/Lifecycle.antt =====
-- ragcore/_engine/lifecycle.py: claim status transitions and contradictions.
use intelligent_rag_framewor.Prelude.{
  ℤ, String, Bool, true, false, not, List, [], ◌∷◌, none, some, value_error, int_eq, ◌==◌,
  if◌then◌else◌, elem, adjoin, difference, is_empty, sort, reverse,
}
use intelligent_rag_framewor.Prelude.Dict.{lookup, insert, get_or, setdefault}
use intelligent_rag_framewor.Floats.{Floats}
use intelligent_rag_framewor.Types.{Claim, Gap}
use intelligent_rag_framewor.Types.ClaimStatus
use intelligent_rag_framewor.Engine.State.{
  Call, ◌>>=◌, ◌>>◌, pure, gets, item, modify, fail_if, advance_state_revision, assert_claim_exists,
  assert_evidence_exists,
}
use intelligent_rag_framewor.Engine.Gaps.{gaps_for_claim, gap_resolution}
use intelligent_rag_framewor.Engine.LifecycleHistory.{record_claim_lifecycle_transition}

module _ {F : Type 0} where
  -- `claim = self._claims[claim_id]` behind the guard
  unfoldable pub known_claim : ℤ → Call F (Claim F)
  unfolding assert_claim_exists
  known_claim claim_id = do
    assert_claim_exists claim_id
    found ← gets (λ s. lookup claim_id s.claims)
    item found

  -- the end of each transition: status, record, revision
  unfoldable pub transit : ℤ → Claim F → ℤ → String → Call F Bool
  unfolding record_claim_lifecycle_transition advance_state_revision
  transit claim_id claim to_status transition = do
    modify
        (λ s. record s { claims = insert claim_id (record claim { status = to_status }) s.claims })
    record_claim_lifecycle_transition claim_id claim.status to_status transition
    advance_state_revision
    pure true

  -- `all(self.gap_resolution(g.id) is not None for g in gaps)`
  unfoldable pub all_resolved : List (Gap F) → Call F Bool
  all_resolved [] = pure true
  all_resolved (g ∷ gaps) = do
    resolution ← gap_resolution g.id
    elim resolution [ none ↦ pure false | some _ ↦ all_resolved gaps ]

  unfoldable pub confirm_claim_if_ready : ℤ → Call F Bool
  unfolding known_claim transit
  confirm_claim_if_ready claim_id = do
    claim ← known_claim claim_id
    if not (claim.status == ClaimStatus.candidate) then pure false else do
      gaps ← gaps_for_claim claim_id
      if is_empty gaps then pure false else do
        ready ← all_resolved gaps
        if not ready
            then pure false
            else transit claim_id claim ClaimStatus.confirmed "confirm_if_ready"

  unfoldable pub register_contradiction : ℤ → ℤ → Call F Bool
  unfolding assert_claim_exists assert_evidence_exists advance_state_revision
  register_contradiction claim_id evidence_id = do
    assert_claim_exists claim_id
    assert_evidence_exists evidence_id
    modify (λ s. record s { contradictions = setdefault claim_id [] s.contradictions })
    bucket ← gets (λ s. get_or s.contradictions claim_id [])
    if elem evidence_id bucket then pure false else do
      modify (λ s. record s {
        contradictions = insert claim_id (adjoin evidence_id bucket) s.contradictions;
      })
      advance_state_revision
      pure true

  unfoldable pub contradictions_for_claim : ℤ → Call F (List ℤ)
  unfolding assert_claim_exists
  contradictions_for_claim claim_id = do
    assert_claim_exists claim_id
    gets (λ s. sort (get_or s.contradictions claim_id []))

  unfoldable pub refute_claim_if_ready : ℤ → Call F Bool
  unfolding known_claim transit
  refute_claim_if_ready claim_id = do
    claim ← known_claim claim_id
    if not (claim.status == ClaimStatus.candidate) then pure false else do
      bucket ← gets (λ s. get_or s.contradictions claim_id [])
      if is_empty bucket
          then pure false
          else transit claim_id claim ClaimStatus.refuted "refute_if_ready"

  unfoldable pub dispute_claim_if_ready : ℤ → Call F Bool
  unfolding known_claim transit
  dispute_claim_if_ready claim_id = do
    claim ← known_claim claim_id
    if not (claim.status == ClaimStatus.confirmed) then pure false else do
      bucket ← gets (λ s. get_or s.contradictions claim_id [])
      if is_empty bucket
          then pure false
          else transit claim_id claim ClaimStatus.disputed "dispute_if_ready"

  unfoldable pub register_contradiction_resolution : ℤ → ℤ → Call F Bool
  unfolding assert_claim_exists assert_evidence_exists advance_state_revision
  register_contradiction_resolution claim_id evidence_id = do
    assert_claim_exists claim_id
    assert_evidence_exists evidence_id
    contras ← gets (λ s. get_or s.contradictions claim_id [])
    fail_if (not (elem evidence_id contras)) value_error
    modify (λ s. record s {
      resolved_contradictions = setdefault claim_id [] s.resolved_contradictions;
    })
    resolved ← gets (λ s. get_or s.resolved_contradictions claim_id [])
    if elem evidence_id resolved then pure false else do
      modify (λ s. record s {
        resolved_contradictions =
            insert claim_id (adjoin evidence_id resolved) s.resolved_contradictions;
      })
      advance_state_revision
      pure true

  unfoldable pub resolved_contradictions_for_claim : ℤ → Call F (List ℤ)
  unfolding assert_claim_exists
  resolved_contradictions_for_claim claim_id = do
    assert_claim_exists claim_id
    gets (λ s. sort (get_or s.resolved_contradictions claim_id []))

  -- `contras - resolved`
  unfoldable pub active_set : ℤ → Call F (List ℤ)
  active_set claim_id = do
    contras ← gets (λ s. get_or s.contradictions claim_id [])
    resolved ← gets (λ s. get_or s.resolved_contradictions claim_id [])
    pure (difference contras resolved)

  unfoldable pub active_contradictions_for_claim : ℤ → Call F (List ℤ)
  unfolding assert_claim_exists active_set
  active_contradictions_for_claim claim_id = do
    assert_claim_exists claim_id
    active ← active_set claim_id
    pure (sort active)

  unfoldable pub resolve_disputed_claim_if_ready : ℤ → Call F Bool
  unfolding known_claim transit
  resolve_disputed_claim_if_ready claim_id = do
    claim ← known_claim claim_id
    if not (claim.status == ClaimStatus.disputed) then pure false else do
      active ← active_contradictions_for_claim claim_id
      if not (is_empty active)
          then pure false
          else transit claim_id claim ClaimStatus.confirmed "resolve_disputed_if_ready"

  -- `sorted(contras - resolved, reverse=True)`, on a set, whose members are distinct
  unfoldable pub active_contradictions_by_freshness : ℤ → Call F (List ℤ)
  unfolding assert_claim_exists active_set
  active_contradictions_by_freshness claim_id = do
    assert_claim_exists claim_id
    active ← active_set claim_id
    pure (reverse (sort active))

module _ {F : Type 0} ⦃fl : Floats F⦄ where
  -- `_REFUTATION_STRENGTH_THRESHOLD`
  abbrev pub refutation_strength_threshold : F
  refutation_strength_threshold = fl.lit 8 10

  -- the loop of `refute_disputed_claim_if_ready`
  unfoldable pub refute_by_any : ℤ → Claim F → List ℤ → Call F Bool
  unfolding transit
  refute_by_any claim_id claim [] = pure false
  refute_by_any claim_id claim (evidence_id ∷ active) = do
    found ← gets (λ s. lookup evidence_id s.evidences)
    evidence ← item found
    if fl.leb refutation_strength_threshold evidence.strength.value
        then transit claim_id claim ClaimStatus.refuted "refute_disputed_if_ready"
        else refute_by_any claim_id claim active

  unfoldable pub refute_disputed_claim_if_ready : ℤ → Call F Bool
  unfolding known_claim
  refute_disputed_claim_if_ready claim_id = do
    claim ← known_claim claim_id
    if not (claim.status == ClaimStatus.disputed) then pure false else do
      active ← active_contradictions_for_claim claim_id
      refute_by_any claim_id claim active

  -- the body behind the tests of status and emptiness
  unfoldable pub refute_by_first : ℤ → Claim F → List ℤ → Call F Bool
  unfolding transit
  refute_by_first claim_id claim [] = pure false
  refute_by_first claim_id claim (most_recent ∷ active) = do
    found ← gets (λ s. lookup most_recent s.evidences)
    evidence ← item found
    if fl.leb refutation_strength_threshold evidence.strength.value
        then transit claim_id claim ClaimStatus.refuted "refute_disputed_by_freshness_if_ready"
        else pure false

  unfoldable pub refute_disputed_claim_if_ready_by_freshness : ℤ → Call F Bool
  unfolding known_claim
  refute_disputed_claim_if_ready_by_freshness claim_id = do
    claim ← known_claim claim_id
    if not (claim.status == ClaimStatus.disputed) then pure false else do
      active ← active_contradictions_by_freshness claim_id
      refute_by_first claim_id claim active
