-- ===== src/Engine/ConfidenceAdapters.antt =====
-- ragcore/_engine/confidence_adapters.py: the facts that the kernel is given, and the two calls that
-- compute the effective confidence.
use intelligent_rag_framewor.Prelude.{
  ℕ, ℤ, pos, Option, none, some, List, [], ◌∷◌, ◌&&◌, not, int_eq, pair_eq, ◌==◌, if◌then◌else◌,
  elem, filter_by, length, map,
}
use intelligent_rag_framewor.Prelude.Dict.{lookup, contains, get_or, values}
use intelligent_rag_framewor.Floats.{Floats}
use intelligent_rag_framewor.Types.{
  ScoreValue, score_value, Claim, RuleStats, EffectiveConfidenceTrace,
}
use intelligent_rag_framewor.Engine.State.{
  Engine, Call, ◌>>=◌, ◌>>◌, pure, lift, gets, item, assert_claim_exists, assert_evidence_exists,
  state_identity,
}
use intelligent_rag_framewor.Engine.Lifecycle.{
  active_contradictions_for_claim, active_contradictions_by_freshness,
}
use intelligent_rag_framewor.Engine.Confidence.{
  effective_confidence_policy_id, status_modifier, freshness_modifier, gap_modifier, count_modifier,
  rule_stats_modifier, evidence_type_modifier, compose_effective_confidence,
}

module _ {F : Type 0} where
  unfoldable pub evidence_freshness : ℤ → Call F ℤ
  unfolding assert_evidence_exists
  evidence_freshness evidence_id = do assert_evidence_exists evidence_id; pure evidence_id

  -- `self._evidences[evidence_id].strength.value`
  unfoldable pub strength_of : ℤ → Call F F
  strength_of evidence_id = do
    found ← gets (λ s. lookup evidence_id s.evidences)
    evidence ← item found
    pure evidence.strength.value

  unfoldable pub strengths_of : List ℤ → Call F (List F)
  strengths_of [] = pure []
  strengths_of (evidence_id ∷ active) = do
    strength ← strength_of evidence_id
    rest ← strengths_of active
    pure (strength ∷ rest)

  unfoldable pub most_recent_strength : List ℤ → Call F (Option F)
  most_recent_strength [] = pure none
  most_recent_strength (evidence_id ∷ active) = do
    strength ← strength_of evidence_id
    pure (some strength)

  -- the gaps of the claim with no resolution, counted
  unfoldable pub unresolved_gap_count : ℤ → Engine F → ℕ
  unresolved_gap_count claim_id s = length (
      filter_by (λ gap_id. not (contains gap_id s.gap_resolutions))
        (get_or s.claim_gap_refs claim_id []))

  -- the statistics that apply to a claim
  unfoldable pub applicable_stats : Claim F → Engine F → Option (RuleStats F)
  applicable_stats claim s =
      if claim.created_by_rule == pos 0
      then none
      else lookup (claim.created_by_rule, claim.created_by_rule_version) s.rule_stats

  abbrev pub firing_count_of : Option (RuleStats F) → Option ℤ
  firing_count_of none = none
  firing_count_of (some stats) = some stats.firing_count

  abbrev pub value_of : Option (ScoreValue F) → Option F
  value_of none = none
  value_of (some score) = some score.value

  abbrev pub precision_of : Option (RuleStats F) → Option F
  precision_of none = none
  precision_of (some stats) = value_of stats.observed_precision

  -- the types of the direct evidence: neither a contradiction of the claim nor a resolved one
  unfoldable pub direct_evidence_types : ℤ → Engine F → List ℤ
  direct_evidence_types claim_id s =
      map (λ ev. ev.type)
        (filter_by
          (λ ev.
            ev.claim_id == claim_id
            && (not (elem ev.id (get_or s.contradictions claim_id []))
                && not (elem ev.id (get_or s.resolved_contradictions claim_id []))))
          (values s.evidences))

module _ {F : Type 0} ⦃fl : Floats F⦄ where
  unfoldable pub status_modifier_for_claim : ℤ → Call F F
  status_modifier_for_claim claim_id = do
    found ← gets (λ s. lookup claim_id s.claims)
    claim ← item found
    lift (status_modifier claim.status)

  unfoldable pub freshness_modifier_for_claim : ℤ → Call F F
  freshness_modifier_for_claim claim_id = do
    active ← active_contradictions_by_freshness claim_id
    strength ← most_recent_strength active
    pure (freshness_modifier strength)

  unfoldable pub gap_modifier_for_claim : ℤ → Call F F
  gap_modifier_for_claim claim_id = gets (λ s. gap_modifier (unresolved_gap_count claim_id s))

  unfoldable pub count_modifier_for_claim : ℤ → Call F F
  count_modifier_for_claim claim_id = do
    active ← active_contradictions_for_claim claim_id
    strengths ← strengths_of active
    pure (count_modifier strengths)

  unfoldable pub rule_stats_modifier_for_claim : ℤ → Call F F
  rule_stats_modifier_for_claim claim_id = do
    found ← gets (λ s. lookup claim_id s.claims)
    claim ← item found
    stats ← gets (applicable_stats claim)
    pure (rule_stats_modifier (firing_count_of stats) (precision_of stats))

  unfoldable pub evidence_type_modifier_for_claim : ℤ → Call F F
  evidence_type_modifier_for_claim claim_id =
      gets (λ s. evidence_type_modifier (direct_evidence_types claim_id s) s.hint_evidence_types)

  unfoldable pub compute_effective_confidence_core : ℤ → Call F (EffectiveConfidenceTrace F)
  compute_effective_confidence_core claim_id = do
    assert_claim_exists claim_id
    found ← gets (λ s. lookup claim_id s.claims)
    claim ← item found
    status_mod ← status_modifier_for_claim claim_id
    freshness_mod ← freshness_modifier_for_claim claim_id
    gap_mod ← gap_modifier_for_claim claim_id
    count_mod ← count_modifier_for_claim claim_id
    rule_stats_mod ← rule_stats_modifier_for_claim claim_id
    evidence_type_mod ← evidence_type_modifier_for_claim claim_id
    effective ← lift (
        score_value (
          compose_effective_confidence claim.base_confidence.value status_mod freshness_mod gap_mod
            count_mod rule_stats_mod evidence_type_mod))
    identity ← state_identity
    pure (record {
      claim_id = claim_id;
      source_state_identity = identity;
      calculation_policy_id = effective_confidence_policy_id;
      base_confidence = claim.base_confidence;
      status_modifier = status_mod;
      freshness_modifier = freshness_mod;
      gap_modifier = gap_mod;
      count_modifier = count_mod;
      rule_stats_modifier = rule_stats_mod;
      evidence_type_modifier = evidence_type_mod;
      effective_confidence = effective;
    })

  unfoldable pub compute_effective_confidence : ℤ → Call F (ScoreValue F)
  compute_effective_confidence claim_id = do
    trace ← compute_effective_confidence_core claim_id
    pure trace.effective_confidence

  unfoldable pub compute_effective_confidence_with_trace : ℤ → Call F (EffectiveConfidenceTrace F)
  compute_effective_confidence_with_trace claim_id = compute_effective_confidence_core claim_id
