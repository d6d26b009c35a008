-- ===== src/Snapshot/Restore.antt =====
-- ragcore/_engine/serialization.py: the data classes that the values of a snapshot denote.
use intelligent_rag_framewor.Prelude.{String, Option, none, some, [], ◌∷◌, Result, ok, ◌>>=◌, ◌>>◌}
use intelligent_rag_framewor.Value.{Value, Fields}
use intelligent_rag_framewor.Value.Comparison.{lookup_field}
use intelligent_rag_framewor.Floats.{Floats}
use intelligent_rag_framewor.Types.{
  ScoreValue, Entity, Observation, Claim, Evidence, Relation, Gap, RuleDefinition, RuleStats,
  ClaimLifecycleEvent,
}
use intelligent_rag_framewor.Snapshot.Arguments.{
  subscript, dict_copy, arguments, int_argument, int_argument_or_zero, str_argument, unpacked,
  sv_from_dict, score_argument,
}

module _ {F : Type 0} where
  unfoldable pub entity_from_dict : Value F → Result Entity
  entity_from_dict v = do
    d ← unpacked v
    arguments ("id" ∷ "type" ∷ []) ("flags" ∷ []) d
    id ← int_argument "id" d
    type ← int_argument "type" d
    flags ← int_argument_or_zero "flags" d
    ok (record { id = id; type = type; flags = flags })

  unfoldable pub observation_from_dict : Value F → Result Observation
  observation_from_dict v = do
    d ← unpacked v
    arguments ("id" ∷ "entity_id" ∷ "raw_ref_id" ∷ "type" ∷ []) ("source_type" ∷ []) d
    id ← int_argument "id" d
    entity_id ← int_argument "entity_id" d
    raw_ref_id ← int_argument "raw_ref_id" d
    type ← int_argument "type" d
    source_type ← int_argument_or_zero "source_type" d
    ok (record {
      id = id;
      entity_id = entity_id;
      raw_ref_id = raw_ref_id;
      type = type;
      source_type = source_type;
    })

  unfoldable pub relation_from_dict : Value F → Result Relation
  relation_from_dict v = do
    d ← unpacked v
    arguments
        ("id" ∷ "from_kind" ∷ "from_id" ∷ "to_kind" ∷ "to_id" ∷ "type" ∷ "rule_id" ∷ "reason_code"
          ∷ [])
        [] d
    id ← int_argument "id" d
    from_kind ← int_argument "from_kind" d
    from_id ← int_argument "from_id" d
    to_kind ← int_argument "to_kind" d
    to_id ← int_argument "to_id" d
    type ← int_argument "type" d
    rule_id ← int_argument "rule_id" d
    reason_code ← int_argument "reason_code" d
    ok (record {
      id = id;
      from_kind = from_kind;
      from_id = from_id;
      to_kind = to_kind;
      to_id = to_id;
      type = type;
      rule_id = rule_id;
      reason_code = reason_code;
    })

  -- `ClaimLifecycleEvent(**d)`
  unfoldable pub event_from_dict : Value F → Result ClaimLifecycleEvent
  event_from_dict v = do
    d ← unpacked v
    arguments ("seq" ∷ "claim_id" ∷ "from_status" ∷ "to_status" ∷ "transition" ∷ []) [] d
    seq ← int_argument "seq" d
    claim_id ← int_argument "claim_id" d
    from_status ← int_argument "from_status" d
    to_status ← int_argument "to_status" d
    transition ← str_argument "transition" d
    ok (record {
      seq = seq;
      claim_id = claim_id;
      from_status = from_status;
      to_status = to_status;
      transition = transition;
    })

module _ {F : Type 0} ⦃fl : Floats F⦄ where
  unfoldable pub claim_from_dict : Value F → Result (Claim F)
  claim_from_dict v = do
    d ← dict_copy v
    raw ← subscript "base_confidence" d
    sv ← sv_from_dict raw
    arguments
        ("id" ∷ "subject_id" ∷ "type" ∷ "status" ∷ "created_by_rule" ∷ "created_by_rule_version"
          ∷ "reason_code" ∷ "base_confidence" ∷ [])
        ("flags" ∷ []) d
    id ← int_argument "id" d
    subject_id ← int_argument "subject_id" d
    type ← int_argument "type" d
    status ← int_argument "status" d
    created_by_rule ← int_argument "created_by_rule" d
    created_by_rule_version ← int_argument "created_by_rule_version" d
    reason_code ← int_argument "reason_code" d
    base_confidence ← score_argument sv
    flags ← int_argument_or_zero "flags" d
    ok (record {
      id = id;
      subject_id = subject_id;
      type = type;
      status = status;
      created_by_rule = created_by_rule;
      created_by_rule_version = created_by_rule_version;
      reason_code = reason_code;
      base_confidence = base_confidence;
      flags = flags;
    })

  unfoldable pub evidence_from_dict : Value F → Result (Evidence F)
  evidence_from_dict v = do
    d ← dict_copy v
    raw ← subscript "strength" d
    sv ← sv_from_dict raw
    arguments ("id" ∷ "claim_id" ∷ "raw_ref_id" ∷ "type" ∷ "strength" ∷ []) [] d
    id ← int_argument "id" d
    claim_id ← int_argument "claim_id" d
    raw_ref_id ← int_argument "raw_ref_id" d
    type ← int_argument "type" d
    strength ← score_argument sv
    ok (record {
      id = id;
      claim_id = claim_id;
      raw_ref_id = raw_ref_id;
      type = type;
      strength = strength;
    })

  unfoldable pub gap_from_dict : Value F → Result (Gap F)
  gap_from_dict v = do
    d ← dict_copy v
    raw ← subscript "severity" d
    sv ← sv_from_dict raw
    arguments
        ("id" ∷ "claim_id" ∷ "type" ∷ "required_evidence_type" ∷ "severity" ∷ "created_by_rule"
          ∷ [])
        [] d
    id ← int_argument "id" d
    claim_id ← int_argument "claim_id" d
    type ← int_argument "type" d
    required_evidence_type ← int_argument "required_evidence_type" d
    severity ← score_argument sv
    created_by_rule ← int_argument "created_by_rule" d
    ok (record {
      id = id;
      claim_id = claim_id;
      type = type;
      required_evidence_type = required_evidence_type;
      severity = severity;
      created_by_rule = created_by_rule;
    })

  unfoldable pub rule_def_from_dict : Value F → Result (RuleDefinition F)
  rule_def_from_dict v = do
    d ← dict_copy v
    raw ← subscript "prior_confidence" d
    sv ← sv_from_dict raw
    arguments ("id" ∷ "version" ∷ "maturity" ∷ "prior_confidence" ∷ []) [] d
    id ← int_argument "id" d
    version ← int_argument "version" d
    maturity ← int_argument "maturity" d
    prior_confidence ← score_argument sv
    ok (record {
      id = id;
      version = version;
      maturity = maturity;
      prior_confidence = prior_confidence;
    })

  -- `_sv_from_dict(d.get(k))`
  abbrev pub optional_score : String → Fields F → Result (Option (ScoreValue F))
  optional_score k d = elim (lookup_field k d) [ none ↦ ok none | some v ↦ sv_from_dict v ]

  unfoldable pub rule_stats_from_dict : Value F → Result (RuleStats F)
  rule_stats_from_dict v = do
    d ← dict_copy v
    observed_precision ← optional_score "observed_precision" d
    false_positive_rate ← optional_score "false_positive_rate" d
    arguments ("rule_id" ∷ "rule_version" ∷ [])
        ("firing_count" ∷ "confirmed_true_count" ∷ "confirmed_false_count" ∷ "observed_precision"
          ∷ "false_positive_rate" ∷ [])
        d
    rule_id ← int_argument "rule_id" d
    rule_version ← int_argument "rule_version" d
    firing_count ← int_argument_or_zero "firing_count" d
    confirmed_true_count ← int_argument_or_zero "confirmed_true_count" d
    confirmed_false_count ← int_argument_or_zero "confirmed_false_count" d
    ok (record {
      rule_id = rule_id;
      rule_version = rule_version;
      firing_count = firing_count;
      confirmed_true_count = confirmed_true_count;
      confirmed_false_count = confirmed_false_count;
      observed_precision = observed_precision;
      false_positive_rate = false_positive_rate;
    })
