-- ===== src/Scoring/Readings.antt =====
-- What each `_modifier_for_claim` of ragcore/_engine/confidence_adapters.py reads on a valid engine.
use intelligent_rag_framewor.Prelude.{
  ℤ, pos, ◌^◌, ◌≤◌, ◌≤ℤ◌, ◌≡◌, ◌≢◌, refl, Option, some, ok, arith, int_eq, string_eq, pair_eq, ◌==◌,
  length, Option-cases, Bool-cases, inl, inr, ltb_ℤ_iff,
}
use intelligent_rag_framewor.Prelude.Dict.{lookup}
use intelligent_rag_framewor.Floats.{Floats}
use intelligent_rag_framewor.Types.{Claim, RuleStats, EngineStateIdentity, engine_state_identity}
use intelligent_rag_framewor.Engine.State.{Engine, state_identity}
use intelligent_rag_framewor.Engine.Lifecycle.{
  active_contradictions_for_claim, active_contradictions_by_freshness,
}
use intelligent_rag_framewor.Engine.Confidence.{
  status_modifier, freshness_modifier, gap_modifier, count_modifier, rule_stats_modifier,
  evidence_type_modifier,
}
use intelligent_rag_framewor.Engine.ConfidenceAdapters.{
  applicable_stats, firing_count_of, precision_of, unresolved_gap_count, direct_evidence_types,
  status_modifier_for_claim, freshness_modifier_for_claim, gap_modifier_for_claim,
  count_modifier_for_claim, rule_stats_modifier_for_claim, evidence_type_modifier_for_claim,
}
use intelligent_rag_framewor.Scoring.Units.{IsUnit}
use intelligent_rag_framewor.Scoring.Modifiers.{
  OptionIsUnit, status_modifier_lem, freshness_modifier-IsUnit, gap_modifier-IsUnit,
  count_modifier-IsUnit, rule_stats_modifier-IsUnit, evidence_type_modifier-IsUnit,
}
use intelligent_rag_framewor.Scoring.Strengths.{freshest_strength_lem, active_strengths_lem}
use intelligent_rag_framewor.Spec.{active}
use intelligent_rag_framewor.Spec.Valid.{IsValid, Each}

module _ {F : Type 0} ⦃fl : Floats F⦄ (s : Engine F) where
  -- the observed precisions are in the unit interval, as `ScoreValue` checks
  abbrev pub PrecisionsAreUnit : Type 0
  PrecisionsAreUnit =
      Each (λ (k : ℤ × ℤ) (x : RuleStats F). OptionIsUnit (precision_of (some x))) s.rule_stats

module _ {F : Type 0} ⦃fl : Floats F⦄ (s : Engine F) (v : IsValid s) (c : ℤ) (claim : Claim F)
    (known : lookup c s.claims ≡ some claim) where
  pub status_read :
      (m : F) × (status_modifier_for_claim c s ≡ (ok m, s))
      × (status_modifier claim.status ≡ ok m)
      × IsUnit m
  unfolding status_modifier_for_claim
  status_read =
      let (m, computed, unit) = status_modifier_lem claim.status (v.statuses c claim known) in
      (m, ground arith, computed, unit)

  pub freshness_read : (m : F) × (freshness_modifier_for_claim c s ≡ (ok m, s)) × IsUnit m
  unfolding freshness_modifier_for_claim active_contradictions_by_freshness
  freshness_read =
      let (o, read, unit) = freshest_strength_lem s v c in
      (freshness_modifier o, ground arith, freshness_modifier-IsUnit o unit)

  pub gap_read : (m : F) × (gap_modifier_for_claim c s ≡ (ok m, s)) × IsUnit m
  unfolding gap_modifier_for_claim
  gap_read = (
    gap_modifier (unresolved_gap_count c s),
    refl,
    gap_modifier-IsUnit F (unresolved_gap_count c s),
  )

  pub count_read :
      length (active s c) ≤ 2 ^ 53 → (m : F) × (count_modifier_for_claim c s ≡ (ok m, s)) × IsUnit m
  unfolding count_modifier_for_claim active_contradictions_for_claim
  count_read bound =
      let (xs, read, units, same) = active_strengths_lem s v c in
      (count_modifier xs, ground arith, count_modifier-IsUnit xs units (rw same bound))

  applicable_precision :
      PrecisionsAreUnit s → OptionIsUnit (precision_of (applicable_stats claim s))
  unfolding applicable_stats
  applicable_precision units = elim (Bool-cases (claim.created_by_rule == pos 0)) [
    | inl unruled ↦ rw unruled tt
    | inr ruled ↦
        elim (Option-cases
          (lookup (claim.created_by_rule, claim.created_by_rule_version) s.rule_stats)) [
            | inl absent ↦ rw (ruled, absent) tt
            | inr (x, found) ↦
                rw (ruled, found)
                  (units (claim.created_by_rule, claim.created_by_rule_version) x found)
          ]
  ]

  pub rule_stats_read :
      PrecisionsAreUnit s → (m : F) × (rule_stats_modifier_for_claim c s ≡ (ok m, s)) × IsUnit m
  unfolding rule_stats_modifier_for_claim
  rule_stats_read units =
      let stats : Option (RuleStats F) = applicable_stats claim s in
      (
        rule_stats_modifier (firing_count_of stats) (precision_of stats),
        ground arith,
        rule_stats_modifier-IsUnit (firing_count_of stats) (precision_of stats)
            (applicable_precision units),
      )

  pub evidence_type_read : (m : F) × (evidence_type_modifier_for_claim c s ≡ (ok m, s)) × IsUnit m
  unfolding evidence_type_modifier_for_claim
  evidence_type_read = (
    evidence_type_modifier (direct_evidence_types c s) s.hint_evidence_types,
    refl,
    evidence_type_modifier-IsUnit F (direct_evidence_types c s) s.hint_evidence_types,
  )

  pub identity_read :
      s.state_identity_token ≢ ""
      → pos 0 ≤ℤ s.state_revision
      → (i : EngineStateIdentity) × (state_identity s ≡ (ok i, s))
  unfolding state_identity engine_state_identity
  identity_read token revision = (
    record { engine_token = s.state_identity_token; revision = s.state_revision },
    ground
        (arith, ltb_ℤ_iff s.state_revision (pos 0), string_eq.test_iff s.state_identity_token ""),
  )
