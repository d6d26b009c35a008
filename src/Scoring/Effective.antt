-- ===== src/Scoring/Effective.antt =====
-- `compute_effective_confidence` and its trace (ragcore/_engine/confidence_adapters.py).
use intelligent_rag_framewor.Prelude.{
  ℤ, pos, ◌^◌, ◌≤◌, ◌≤ℤ◌, ◌≡◌, ◌≢◌, refl, true, some, ok, arith, int_eq, string_eq, pair_eq, length,
  eqb_ℤ,
}
use intelligent_rag_framewor.Prelude.Dict.{lookup}
use intelligent_rag_framewor.Floats.{Floats, zero_float, in_unit, feq}
use intelligent_rag_framewor.Types.{Claim, ScoreValue, EffectiveConfidenceTrace, score_value}
use intelligent_rag_framewor.Types.ClaimStatus
use intelligent_rag_framewor.Engine.State.{Engine, assert_claim_exists}
use intelligent_rag_framewor.Engine.Confidence.{
  status_modifier, compose_effective_confidence, effective_confidence_policy_id,
}
use intelligent_rag_framewor.Engine.ConfidenceAdapters.{
  compute_effective_confidence_core, compute_effective_confidence,
}
use intelligent_rag_framewor.Scoring.Units.{in_unit-IsUnit, IsUnit-in_unit}
use intelligent_rag_framewor.Scoring.Modifiers.{compose_lem}
use intelligent_rag_framewor.Spec.{active}
use intelligent_rag_framewor.Spec.Valid.{IsValid}
use intelligent_rag_framewor.Scoring.Readings.{
  PrecisionsAreUnit, status_read, freshness_read, gap_read, count_read, rule_stats_read,
  evidence_type_read, identity_read,
}

module _ {F : Type 0} ⦃fl : Floats F⦄ (s : Engine F) (v : IsValid s) (c : ℤ) (claim : Claim F)
    (known : lookup c s.claims ≡ some claim) (units : PrecisionsAreUnit s)
    (bound : length (active s c) ≤ 2 ^ 53) (token : s.state_identity_token ≢ "")
    (revision : pos 0 ≤ℤ s.state_revision) where
  -- On a valid engine with a token that is not empty, a revision from 0 up, observed precisions in
  -- the unit interval and at most 2 ** 53 active contradictions of the claim, the effective
  -- confidence of a known claim is computed: nothing is raised and the engine stays as it is. The
  -- trace names the claim and its base confidence, and the score is the product of the base
  -- confidence and the six modifiers of the trace, multiplied from the left in the order of status,
  -- freshness, gaps, count, rule statistics and evidence types. It is in the unit interval, and at
  -- most the base confidence and each of the six modifiers.
  pub compute_core-total :
      (t : EffectiveConfidenceTrace F) × (compute_effective_confidence_core c s ≡ (ok t, s))
      × (t.claim_id ≡ c)
      × (t.base_confidence ≡ claim.base_confidence)
      × (status_modifier claim.status ≡ ok t.status_modifier)
      × (t.effective_confidence.value
          ≡ fl.mul
              (fl.mul
                (fl.mul
                  (fl.mul
                    (fl.mul
                      (fl.mul claim.base_confidence.value t.status_modifier)
                      t.freshness_modifier)
                    t.gap_modifier)
                  t.count_modifier)
                t.rule_stats_modifier)
              t.evidence_type_modifier)
      × (in_unit t.effective_confidence.value ≡ true)
      × (fl.leb t.effective_confidence.value claim.base_confidence.value ≡ true)
      × (fl.leb t.effective_confidence.value t.status_modifier ≡ true)
      × (fl.leb t.effective_confidence.value t.freshness_modifier ≡ true)
      × (fl.leb t.effective_confidence.value t.gap_modifier ≡ true)
      × (fl.leb t.effective_confidence.value t.count_modifier ≡ true)
      × (fl.leb t.effective_confidence.value t.rule_stats_modifier ≡ true)
      × (fl.leb t.effective_confidence.value t.evidence_type_modifier ≡ true)
  unfolding compute_effective_confidence_core compose_effective_confidence score_value
      assert_claim_exists
  compute_core-total =
      let (status, status_reads, status_is, status_unit) = status_read s v c claim known in
      let (fresh, fresh_reads, fresh_unit) = freshness_read s v c claim known in
      let (gap, gap_reads, gap_unit) = gap_read s v c claim known in
      let (count, count_reads, count_unit) = count_read s v c claim known bound in
      let (stats, stats_reads, stats_unit) = rule_stats_read s v c claim known units in
      let (kind, kind_reads, kind_unit) = evidence_type_read s v c claim known in
      let (identity, identity_reads) = identity_read s v c claim known token revision in
      let base : F = claim.base_confidence.value in
      let (
        unit, below, below_status, below_fresh, below_gap, below_count, below_stats, below_kind,
      ) =
        compose_lem base status fresh gap count stats kind
          (in_unit-IsUnit base (v.confidences c claim known)) status_unit fresh_unit gap_unit
          count_unit stats_unit kind_unit in
      let effective : F = compose_effective_confidence base status fresh gap count stats kind in
      let in_range : in_unit effective ≡ true = IsUnit-in_unit effective unit in
      let trace : EffectiveConfidenceTrace F = record {
        claim_id = c;
        source_state_identity = identity;
        calculation_policy_id = effective_confidence_policy_id;
        base_confidence = claim.base_confidence;
        status_modifier = status;
        freshness_modifier = fresh;
        gap_modifier = gap;
        count_modifier = count;
        rule_stats_modifier = stats;
        evidence_type_modifier = kind;
        effective_confidence = record { value = effective };
      } in
      (
        trace,
        ground arith,
        refl,
        refl,
        status_is,
        refl,
        in_range,
        below,
        below_status,
        below_fresh,
        below_gap,
        below_count,
        below_stats,
        below_kind,
      )

  -- On a valid engine with a token that is not empty, a revision from 0 up, observed precisions in
  -- the unit interval and at most 2 ** 53 active contradictions of the claim, the effective
  -- confidence of a refuted claim is computed, with no exception and no change of the engine, and it
  -- equals 0.0.
  pub compute-refuted :
      claim.status ≡ ClaimStatus.refuted
      → (x : ScoreValue F) × (compute_effective_confidence c s ≡ (ok x, s))
        × (feq x.value zero_float ≡ true)
  unfolding compute_effective_confidence status_modifier eqb_ℤ
  compute-refuted refuted =
      let (t, computed, _, _, status, _, unit, _, below, _, _, _, _, _) = compute_core-total in
      (t.effective_confidence, ground arith, ground arith)
