-- ===== src/Runtime.antt =====
-- ragcore/rule_runtime.py: one firing of a rule, with the templates of rule_output.py and rule_gap.py.
mod Calls
pub mod Firing
pub mod Returns
pub mod Steps
use intelligent_rag_framewor.Prelude.{
  ℤ, pos, Bool, true, false, not, Option, none, some, List, [], ◌∷◌, Result, ok, raise,
  if◌then◌else◌,
}
use intelligent_rag_framewor.Floats.{Floats}
use intelligent_rag_framewor.Value.{Fields}
use intelligent_rag_framewor.Value.Comparison.{Numbers}
use intelligent_rag_framewor.Types.{ScoreValue, RuleDefinition}
use intelligent_rag_framewor.Condition.{
  ConditionTree, Trace, result_of, evaluate_condition_with_trace,
}
use intelligent_rag_framewor.Engine.State.{Engine, Call, ◌>>=◌, ◌>>◌, pure, lift}
use intelligent_rag_framewor.Engine.Crud.{add_claim}
use intelligent_rag_framewor.Engine.Gaps.{add_gap}
use intelligent_rag_framewor.Engine.Rules.{get_rule_stats, update_rule_stats}

-- `RuleOutputTemplate`
pub record RuleOutputTemplate (F : Type 0) : Type 0 where
  pub claim_type : ℤ
  pub reason_code : ℤ
  pub status : ℤ
  pub base_confidence : ScoreValue F

-- `RequiredEvidenceTemplate`
pub record RequiredEvidenceTemplate : Type 0 where
  pub evidence_types : List ℤ

pub record FiringTrace (F : Type 0) : Type 0 where
  pub rule_id : ℤ
  pub rule_version : ℤ
  pub subject_id : ℤ
  pub fired : Bool
  pub condition_trace : Trace F
  pub claim_id : Option ℤ
  pub gap_ids : List ℤ

abbrev pub gap_type_missing_evidence : ℤ
gap_type_missing_evidence = pos 1

abbrev pub evidence_types_of : Option RequiredEvidenceTemplate → List ℤ
evidence_types_of none = []
evidence_types_of (some required) = required.evidence_types

module _ {F : Type 0} ⦃fl : Floats F⦄ where
  -- `DEFAULT_GAP_SEVERITY.value`
  abbrev pub default_gap_severity : F
  default_gap_severity = fl.lit 1 2

  -- the loop over the required evidence types
  unfoldable pub add_gaps : ℤ → ℤ → List ℤ → Call F (List ℤ)
  add_gaps claim_id rule_id [] = pure []
  add_gaps claim_id rule_id (evidence_type ∷ types) = do
    gap_id ← add_gap claim_id gap_type_missing_evidence evidence_type default_gap_severity rule_id
    gap_ids ← add_gaps claim_id rule_id types
    pure (gap_id ∷ gap_ids)

module _ {F : Type 0} ⦃fl : Floats F⦄ ⦃nums : Numbers F⦄ where
  unfoldable pub fire_rule_core :
      RuleDefinition F
      → ConditionTree F
      → RuleOutputTemplate F
      → ℤ
      → Fields F
      → Option RequiredEvidenceTemplate
      → Call F (FiringTrace F)
  fire_rule_core definition condition output subject_id context required_evidence = do
    _ ← get_rule_stats definition.id definition.version
    condition_trace ← lift (evaluate_condition_with_trace condition context)
    if not (result_of condition_trace)
        then pure (record {
          rule_id = definition.id;
          rule_version = definition.version;
          subject_id = subject_id;
          fired = false;
          condition_trace = condition_trace;
          claim_id = none;
          gap_ids = [];
        })
        else do
          claim_id ←
              add_claim subject_id output.claim_type definition.id definition.version
                output.reason_code output.base_confidence.value output.status (pos 0)
          gap_ids ← add_gaps claim_id definition.id (evidence_types_of required_evidence)
          update_rule_stats definition.id definition.version (pos 1) (pos 0) (pos 0) none none
          pure (record {
            rule_id = definition.id;
            rule_version = definition.version;
            subject_id = subject_id;
            fired = true;
            condition_trace = condition_trace;
            claim_id = some claim_id;
            gap_ids = gap_ids;
          })

  unfoldable pub fire_rule :
      RuleDefinition F
      → ConditionTree F
      → RuleOutputTemplate F
      → ℤ
      → Fields F
      → Option RequiredEvidenceTemplate
      → Call F (Option ℤ)
  fire_rule definition condition output subject_id context required_evidence = do
    trace ← fire_rule_core definition condition output subject_id context required_evidence
    pure trace.claim_id

  unfoldable pub fire_rule_with_trace :
      RuleDefinition F
      → ConditionTree F
      → RuleOutputTemplate F
      → ℤ
      → Fields F
      → Option RequiredEvidenceTemplate
      → Call F (FiringTrace F)
  fire_rule_with_trace definition condition output subject_id context required_evidence =
      fire_rule_core definition condition output subject_id context required_evidence
