-- ===== src/Snapshot/Records.antt =====
-- The data classes of ragcore/types.py as dicts, which is `asdict` in ragcore/_engine/serialization.py.
use intelligent_rag_framewor.Prelude.{String, Option, none, some, List, [], ◌∷◌}
use intelligent_rag_framewor.Value.{Value, Values, Fields}
use intelligent_rag_framewor.Types.{
  ScoreValue, Entity, Observation, Claim, Evidence, Relation, Gap, RuleDefinition, RuleStats,
  ClaimLifecycleEvent,
}

module _ {F : Type 0} where
  abbrev pub values_of : List (Value F) → Values F
  values_of [] = Values.nil
  values_of (v ∷ vs) = Values.cons v (values_of vs)

  abbrev pub list_of : List (Value F) → Value F
  list_of vs = Value.list (values_of vs)

  abbrev pub as_fields : List (String × Value F) → Fields F
  as_fields [] = Fields.end
  as_fields ((k, v) ∷ fs) = Fields.field k v (as_fields fs)

  -- a dict display
  abbrev pub dict_of : List (String × Value F) → Value F
  dict_of fs = Value.mapping (as_fields fs)

  -- `_sv_to_dict` on a score, as `asdict` does for a nested one
  abbrev pub score_to_dict : ScoreValue F → Value F
  score_to_dict sv = dict_of (("value", Value.float sv.value) ∷ [])

  unfoldable pub sv_to_dict : Option (ScoreValue F) → Value F
  sv_to_dict none = Value.null
  sv_to_dict (some sv) = score_to_dict sv

  -- `asdict` on each data class, with its fields in the order of the class
  abbrev pub entity_to_dict : Entity → Value F
  entity_to_dict x =
      dict_of
        (("id", Value.int x.id) ∷ ("type", Value.int x.type) ∷ ("flags", Value.int x.flags) ∷ [])

  abbrev pub observation_to_dict : Observation → Value F
  observation_to_dict x = dict_of (
      ("id", Value.int x.id)
      ∷ ("entity_id", Value.int x.entity_id)
      ∷ ("raw_ref_id", Value.int x.raw_ref_id)
      ∷ ("type", Value.int x.type)
      ∷ ("source_type", Value.int x.source_type)
      ∷ [])

  abbrev pub claim_to_dict : Claim F → Value F
  claim_to_dict x = dict_of (
      ("id", Value.int x.id)
      ∷ ("subject_id", Value.int x.subject_id)
      ∷ ("type", Value.int x.type)
      ∷ ("status", Value.int x.status)
      ∷ ("created_by_rule", Value.int x.created_by_rule)
      ∷ ("created_by_rule_version", Value.int x.created_by_rule_version)
      ∷ ("reason_code", Value.int x.reason_code)
      ∷ ("base_confidence", score_to_dict x.base_confidence)
      ∷ ("flags", Value.int x.flags)
      ∷ [])

  abbrev pub evidence_to_dict : Evidence F → Value F
  evidence_to_dict x = dict_of (
      ("id", Value.int x.id)
      ∷ ("claim_id", Value.int x.claim_id)
      ∷ ("raw_ref_id", Value.int x.raw_ref_id)
      ∷ ("type", Value.int x.type)
      ∷ ("strength", score_to_dict x.strength)
      ∷ [])

  abbrev pub relation_to_dict : Relation → Value F
  relation_to_dict x = dict_of (
      ("id", Value.int x.id)
      ∷ ("from_kind", Value.int x.from_kind)
      ∷ ("from_id", Value.int x.from_id)
      ∷ ("to_kind", Value.int x.to_kind)
      ∷ ("to_id", Value.int x.to_id)
      ∷ ("type", Value.int x.type)
      ∷ ("rule_id", Value.int x.rule_id)
      ∷ ("reason_code", Value.int x.reason_code)
      ∷ [])

  abbrev pub gap_to_dict : Gap F → Value F
  gap_to_dict x = dict_of (
      ("id", Value.int x.id)
      ∷ ("claim_id", Value.int x.claim_id)
      ∷ ("type", Value.int x.type)
      ∷ ("required_evidence_type", Value.int x.required_evidence_type)
      ∷ ("severity", score_to_dict x.severity)
      ∷ ("created_by_rule", Value.int x.created_by_rule)
      ∷ [])

  abbrev pub rule_def_to_dict : RuleDefinition F → Value F
  rule_def_to_dict x = dict_of (
      ("id", Value.int x.id)
      ∷ ("version", Value.int x.version)
      ∷ ("maturity", Value.int x.maturity)
      ∷ ("prior_confidence", score_to_dict x.prior_confidence)
      ∷ [])

  abbrev pub rule_stats_to_dict : RuleStats F → Value F
  rule_stats_to_dict x = dict_of (
      ("rule_id", Value.int x.rule_id)
      ∷ ("rule_version", Value.int x.rule_version)
      ∷ ("firing_count", Value.int x.firing_count)
      ∷ ("confirmed_true_count", Value.int x.confirmed_true_count)
      ∷ ("confirmed_false_count", Value.int x.confirmed_false_count)
      ∷ ("observed_precision", sv_to_dict x.observed_precision)
      ∷ ("false_positive_rate", sv_to_dict x.false_positive_rate)
      ∷ [])

  abbrev pub event_to_dict : ClaimLifecycleEvent → Value F
  event_to_dict x = dict_of (
      ("seq", Value.int x.seq)
      ∷ ("claim_id", Value.int x.claim_id)
      ∷ ("from_status", Value.int x.from_status)
      ∷ ("to_status", Value.int x.to_status)
      ∷ ("transition", Value.str x.transition)
      ∷ [])
