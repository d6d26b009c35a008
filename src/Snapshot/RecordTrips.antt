-- ===== src/Snapshot/RecordTrips.antt =====
-- A data class of ragcore/types.py comes back from its dict (ragcore/_engine/serialization.py).
use intelligent_rag_framewor.Prelude.{
  ◌≡◌, refl, Option, none, some, true, ok, arith, all, any, elem, string_eq,
}
use intelligent_rag_framewor.Floats.{Floats, in_unit}
use intelligent_rag_framewor.Types.{
  ScoreValue, score_value, Entity, Observation, Claim, Evidence, Relation, Gap, RuleDefinition,
  RuleStats, ClaimLifecycleEvent,
}
use intelligent_rag_framewor.Snapshot.Arguments.{sv_from_dict}
use intelligent_rag_framewor.Snapshot.Records.{
  sv_to_dict, score_to_dict, entity_to_dict, observation_to_dict, claim_to_dict, evidence_to_dict,
  relation_to_dict, gap_to_dict, rule_def_to_dict, rule_stats_to_dict, event_to_dict,
}
use intelligent_rag_framewor.Snapshot.Restore.{
  entity_from_dict, observation_from_dict, claim_from_dict, evidence_from_dict, relation_from_dict,
  gap_from_dict, rule_def_from_dict, rule_stats_from_dict, event_from_dict,
}

module _ (F : Type 0) where
  pub entity_trip : (x : Entity) → entity_from_dict {F = F} (entity_to_dict x) ≡ ok x
  unfolding entity_from_dict all elem any
  entity_trip x = refl

  pub observation_trip :
      (x : Observation) → observation_from_dict {F = F} (observation_to_dict x) ≡ ok x
  unfolding observation_from_dict all elem any
  observation_trip x = refl

  pub relation_trip : (x : Relation) → relation_from_dict {F = F} (relation_to_dict x) ≡ ok x
  unfolding relation_from_dict all elem any
  relation_trip x = refl

  pub event_trip : (x : ClaimLifecycleEvent) → event_from_dict {F = F} (event_to_dict x) ≡ ok x
  unfolding event_from_dict all elem any
  event_trip x = refl

module _ {F : Type 0} ⦃fl : Floats F⦄ where
  score_trip :
      (sv : ScoreValue F) → in_unit sv.value ≡ true → sv_from_dict (score_to_dict sv) ≡ ok (some sv)
  unfolding score_value
  score_trip sv h = ground arith

  abbrev pub IsOptionalUnit : Option (ScoreValue F) → Type 0
  IsOptionalUnit none = Unit
  IsOptionalUnit (some sv) = in_unit sv.value ≡ true

  optional_trip :
      (sv : Option (ScoreValue F)) → IsOptionalUnit sv → sv_from_dict (sv_to_dict sv) ≡ ok sv
  unfolding sv_to_dict
  optional_trip none h = refl
  optional_trip (some sv) h = score_trip sv h

  pub claim_trip :
      (x : Claim F)
      → in_unit x.base_confidence.value ≡ true
      → claim_from_dict (claim_to_dict x) ≡ ok x
  unfolding claim_from_dict all elem any
  claim_trip x h = rw (score_trip x.base_confidence h) refl

  pub evidence_trip :
      (x : Evidence F)
      → in_unit x.strength.value ≡ true
      → evidence_from_dict (evidence_to_dict x) ≡ ok x
  unfolding evidence_from_dict all elem any
  evidence_trip x h = rw (score_trip x.strength h) refl

  pub gap_trip :
      (x : Gap F) → in_unit x.severity.value ≡ true → gap_from_dict (gap_to_dict x) ≡ ok x
  unfolding gap_from_dict all elem any
  gap_trip x h = rw (score_trip x.severity h) refl

  pub rule_def_trip :
      (x : RuleDefinition F)
      → in_unit x.prior_confidence.value ≡ true
      → rule_def_from_dict (rule_def_to_dict x) ≡ ok x
  unfolding rule_def_from_dict all elem any
  rule_def_trip x h = rw (score_trip x.prior_confidence h) refl

  pub rule_stats_trip :
      (x : RuleStats F)
      → IsOptionalUnit x.observed_precision
      → IsOptionalUnit x.false_positive_rate
      → rule_stats_from_dict (rule_stats_to_dict x) ≡ ok x
  unfolding rule_stats_from_dict all elem any
  rule_stats_trip x h g =
      rw (optional_trip x.observed_precision h, optional_trip x.false_positive_rate g) refl
