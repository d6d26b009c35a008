-- ===== src/Types.antt =====
-- ragcore/types.py: the frozen data classes and the constants. Python's `int` is ℤ, and `F` is the
-- type that stands for `float`.
pub mod Kind
pub mod ClaimStatus
pub mod RuleMaturity
use intelligent_rag_framewor.Prelude.{
  ℕ, ℤ, pos, ltb_ℤ, String, Bool, true, false, Option, none, some, Result, ok, raise, value_error,
  if◌then◌else◌, ◌==◌, string_eq,
}
use intelligent_rag_framewor.Floats.{Floats, in_unit}

pub record ScoreValue (F : Type 0) : Type 0 where
  pub value : F

-- `ScoreValue(value)`: the check of `__post_init__`
unfoldable pub score_value : {F : Type 0} ⦃fl : Floats F⦄ → F → Result (ScoreValue F)
score_value v = if in_unit v then ok (record { value = v }) else raise value_error

pub record Entity : Type 0 where
  pub id : ℤ
  pub type : ℤ
  pub flags : ℤ

pub record Observation : Type 0 where
  pub id : ℤ
  pub entity_id : ℤ
  pub raw_ref_id : ℤ
  pub type : ℤ
  pub source_type : ℤ

pub record Claim (F : Type 0) : Type 0 where
  pub id : ℤ
  pub subject_id : ℤ
  pub type : ℤ
  pub status : ℤ
  pub created_by_rule : ℤ
  pub created_by_rule_version : ℤ
  pub reason_code : ℤ
  pub base_confidence : ScoreValue F
  pub flags : ℤ

pub record Evidence (F : Type 0) : Type 0 where
  pub id : ℤ
  pub claim_id : ℤ
  pub raw_ref_id : ℤ
  pub type : ℤ
  pub strength : ScoreValue F

pub record Relation : Type 0 where
  pub id : ℤ
  pub from_kind : ℤ
  pub from_id : ℤ
  pub to_kind : ℤ
  pub to_id : ℤ
  pub type : ℤ
  pub rule_id : ℤ
  pub reason_code : ℤ

pub record Gap (F : Type 0) : Type 0 where
  pub id : ℤ
  pub claim_id : ℤ
  pub type : ℤ
  pub required_evidence_type : ℤ
  pub severity : ScoreValue F
  pub created_by_rule : ℤ

pub record RuleDefinition (F : Type 0) : Type 0 where
  pub id : ℤ
  pub version : ℤ
  pub maturity : ℤ
  pub prior_confidence : ScoreValue F

pub record RuleStats (F : Type 0) : Type 0 where
  pub rule_id : ℤ
  pub rule_version : ℤ
  pub firing_count : ℤ
  pub confirmed_true_count : ℤ
  pub confirmed_false_count : ℤ
  pub observed_precision : Option (ScoreValue F)
  pub false_positive_rate : Option (ScoreValue F)

pub record ClaimLifecycleEvent : Type 0 where
  pub seq : ℤ
  pub claim_id : ℤ
  pub from_status : ℤ
  pub to_status : ℤ
  pub transition : String

pub record EngineStateIdentity : Type 0 where
  pub engine_token : String
  pub revision : ℤ

-- `EngineStateIdentity(engine_token, revision)`: the range checks of `__post_init__`; its type
-- checks hold by the types here.
unfoldable pub engine_state_identity : String → ℤ → Result EngineStateIdentity
engine_state_identity token revision =
    if token == ""
    then raise value_error
    else if ltb_ℤ revision (pos 0)
    then raise value_error
    else ok (record { engine_token = token; revision = revision })

pub record EffectiveConfidenceTrace (F : Type 0) : Type 0 where
  pub claim_id : ℤ
  pub source_state_identity : EngineStateIdentity
  pub calculation_policy_id : String
  pub base_confidence : ScoreValue F
  pub status_modifier : F
  pub freshness_modifier : F
  pub gap_modifier : F
  pub count_modifier : F
  pub rule_stats_modifier : F
  pub evidence_type_modifier : F
  pub effective_confidence : ScoreValue F
