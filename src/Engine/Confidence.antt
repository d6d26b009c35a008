-- ===== src/Engine/Confidence.antt =====
-- ragcore/_engine/confidence.py: the fixed kernel of the effective confidence.
use Prim.Native.Nat.{min}
use intelligent_rag_framewor.Prelude.{
  ℕ, ℤ, pos_part, String, List, Option, none, some, Result, ok, raise, key_error, int_eq, ◌==◌,
  if◌then◌else◌, ltb, eqb, length, all, elem, is_empty,
}
use mathlib.Core.List.{foldl}
use intelligent_rag_framewor.Floats.{Floats, zero_float, one_float}
use intelligent_rag_framewor.Types.ClaimStatus

abbrev pub effective_confidence_policy_id : String
effective_confidence_policy_id = "ragcore.effective-confidence.v1"

module _ {F : Type 0} ⦃fl : Floats F⦄ where
  -- `_STATUS_TO_MODIFIER[status]`
  unfoldable pub status_modifier : ℤ → Result F
  status_modifier status =
      if status == ClaimStatus.candidate
      then ok one_float
      else if status == ClaimStatus.confirmed
      then ok one_float
      else if status == ClaimStatus.disputed
      then ok (fl.lit 1 2)
      else if status == ClaimStatus.refuted
      then ok zero_float
      else raise key_error

  unfoldable pub freshness_modifier : Option F → F
  freshness_modifier none = one_float
  freshness_modifier (some strength) = fl.sub one_float (fl.mul strength (fl.lit 1 2))

  unfoldable pub gap_modifier : ℕ → F
  gap_modifier unresolved_gap_count =
      if eqb unresolved_gap_count 0
      then one_float
      else if eqb unresolved_gap_count 1
      then fl.lit 9 10
      else if eqb unresolved_gap_count 2
      then fl.lit 8 10
      else fl.lit 7 10

  -- `sum(strengths)`, added from the left
  unfoldable pub sum : List F → F
  sum = foldl fl.add zero_float

  unfoldable pub count_modifier : List F → F
  unfolding sum
  count_modifier strengths =
      if ltb (length strengths) 2
      then one_float
      else fl.sub one_float
          (fl.mul (fl.div (sum strengths) (fl.lit (length strengths) 1)) (fl.lit 1 4))

  -- the clamped firing count over the saturation count, from which the penalty is taken
  unfoldable pub maturity_modifier : ℤ → F
  maturity_modifier firing_count =
      let clamped_count = min (pos_part firing_count) 2 in
      let maturity_ratio = fl.lit clamped_count 2 in
      fl.sub one_float (fl.mul (fl.sub one_float maturity_ratio) (fl.lit 2 10))

  unfoldable pub precision_modifier : Option F → F
  precision_modifier none = one_float
  precision_modifier (some observed_precision) =
      fl.add (fl.lit 9 10) (fl.mul observed_precision (fl.lit 1 10))

  unfoldable pub rule_stats_modifier : Option ℤ → Option F → F
  rule_stats_modifier none observed_precision = one_float
  rule_stats_modifier (some firing_count) observed_precision =
      fl.mul (maturity_modifier firing_count) (precision_modifier observed_precision)

  unfoldable pub evidence_type_modifier : List ℤ → List ℤ → F
  evidence_type_modifier direct_evidence_types hint_evidence_types =
      if is_empty hint_evidence_types
      then one_float
      else if is_empty direct_evidence_types
      then one_float
      else if all (λ t. elem t hint_evidence_types) direct_evidence_types
      then fl.lit 9 10
      else one_float

  unfoldable pub compose_effective_confidence : F → F → F → F → F → F → F → F
  compose_effective_confidence base_confidence status_mod freshness_mod gap_mod count_mod
        rule_stats_mod evidence_type_mod =
      fl.mul
        (fl.mul
          (fl.mul (fl.mul (fl.mul (fl.mul base_confidence status_mod) freshness_mod) gap_mod)
            count_mod)
          rule_stats_mod)
        evidence_type_mod
