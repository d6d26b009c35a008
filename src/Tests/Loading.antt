-- ===== src/Tests/Loading.antt =====
-- A rule file, loaded, registered and fired.
use intelligent_rag_framewor.Prelude.{
  ◌↔◌, ℕ, pos, String, true, ◌≡◌, refl, none, ok, [], ◌∷◌, all, any, elem, string_eq, int_eq, Every,
  leb_ℤ, eqb_ℤ, List,
}
use intelligent_rag_framewor.Prelude.Dict.{lookup, contains}
use intelligent_rag_framewor.Floats.Fixed.{fixed}
use intelligent_rag_framewor.Types.{score_value, RuleDefinition}
use intelligent_rag_framewor.Value.{Value, Values, Fields}
use intelligent_rag_framewor.Condition.{ConditionTree, ConditionTrees, evaluate_condition}
use intelligent_rag_framewor.Engine.Rules.{register_rule}
use intelligent_rag_framewor.Runtime.{
  RuleOutputTemplate, RequiredEvidenceTemplate, FiringTrace, fire_rule_core,
}
use intelligent_rag_framewor.Loading.Text.{strip, left_strip, right_strip}
use intelligent_rag_framewor.Loading.Tree.{load_condition_tree, node_kind, load_predicate}
use intelligent_rag_framewor.Loading.Header.{RuleSpec, load_rule_spec, compile_rule_condition}
use intelligent_rag_framewor.Loading.Maps.{
  validate_rule_id_map, validate_uint16_map, validate_claim_status_map, is_uint16,
  is_allowed_status, validate_entries, has_duplicates,
}
use intelligent_rag_framewor.Loading.Compile.{
  compile_rule_definition, register_rule_spec, compile_rule_output, compile_required_evidence,
  evidence_types_from,
}
use intelligent_rag_framewor.Loading.Loaded.{IsTree, dump, load-dump}
use intelligent_rag_framewor.Loading.Admitted.{IsUint16, IsHeader, load_rule_spec-IsHeader}
use intelligent_rag_framewor.Loading.Compiled.{IsMaturity, IsOutput}
use intelligent_rag_framewor.Loading.Tables.{IsTable, validate_lem}
use intelligent_rag_framewor.Loading.Firing.{register-fire}
use intelligent_rag_framewor.Loading.Named.{compile_lem, OutputOf, DefinitionOf}
use intelligent_rag_framewor.Loading.NamedEvidence.{EvidenceOf}
use intelligent_rag_framewor.Tests.Scenario.{state}
use intelligent_rag_framewor.Tests.Rules.{fixed_numbers}

abbrev fields : List (String × Value ℕ) → Fields ℕ
fields [] = Fields.end
fields ((k, v) ∷ fs) = Fields.field k v (fields fs)

-- {"all": [{"field": " port ", "op": "ge", "value": 22}]}
abbrev raw_condition : Value ℕ
raw_condition = Value.mapping (
    fields (
      (
        "all",
        Value.list (
            Values.cons
              (Value.mapping (
                fields (
                  ("field", Value.str " port ")
                  ∷ ("op", Value.str "ge")
                  ∷ ("value", Value.int (pos 22))
                  ∷ [])))
              Values.nil),
      )
      ∷ []))

abbrev tree : ConditionTree ℕ
tree = ConditionTree.combinator "all" (
    ConditionTrees.child
      (ConditionTree.predicate (record { field = "port"; op = "ge"; value = Value.int (pos 22) }))
      ConditionTrees.nil)

tree_loads : load_condition_tree raw_condition ≡ ok tree
unfolding load_condition_tree node_kind load_predicate all any elem strip left_strip right_strip
tree_loads = refl

load-dump_example : IsTree tree × (load_condition_tree (dump tree) ≡ ok tree)
load-dump_example = load-dump raw_condition tree tree_loads

abbrev rule_file : Fields ℕ
rule_file = fields (
    ("id", Value.str " RULE_DOMAIN_SSH_001")
    ∷ ("version", Value.int (pos 2))
    ∷ ("maturity", Value.str "stable")
    ∷ ("reliability", Value.mapping (fields (("prior_confidence", Value.int (pos 1)) ∷ [])))
    ∷ ("condition", raw_condition)
    ∷ (
      "output",
      Value.mapping (
          fields (
            (
              "claim",
              Value.mapping (
                  fields (
                    ("type", Value.str "outdated_ssh_candidate")
                    ∷ ("status", Value.str "candidate")
                    ∷ ("base_confidence", Value.float 6000)
                    ∷ ("reason_code", Value.str "SSH_PORT_OPEN")
                    ∷ (
                      "required_evidence",
                      Value.list (Values.cons (Value.str "os_family") Values.nil),
                    )
                    ∷ [])),
            )
            ∷ [])),
    )
    ∷ [])

abbrev spec : RuleSpec ℕ
spec = record {
  id = "RULE_DOMAIN_SSH_001";
  version = pos 2;
  maturity = "stable";
  prior_confidence = record { value = 10000 };
  raw = rule_file;
}

spec_loads : load_rule_spec rule_file ≡ ok spec
unfolding load_rule_spec score_value strip left_strip right_strip leb_ℤ eqb_ℤ
spec_loads = refl

load_rule_spec-IsHeader_example : IsHeader rule_file spec
load_rule_spec-IsHeader_example = load_rule_spec-IsHeader rule_file spec spec_loads

abbrev output : RuleOutputTemplate ℕ
output = record {
  claim_type = pos 1;
  reason_code = pos 2;
  status = pos 0;
  base_confidence = record { value = 6000 };
}

output_compiles : compile_rule_output spec ≡ ok output
unfolding compile_rule_output all lookup score_value
output_compiles = refl

condition_compiles : compile_rule_condition spec ≡ ok tree
unfolding compile_rule_condition load_condition_tree node_kind load_predicate all any elem strip
    left_strip right_strip
condition_compiles = refl

abbrev wanted : RequiredEvidenceTemplate
wanted = record { evidence_types = pos 2 ∷ [] }

required_compiles : compile_required_evidence spec ≡ ok wanted
unfolding compile_required_evidence evidence_types_from lookup
required_compiles = refl

abbrev definition : RuleDefinition ℕ
definition = record {
  id = pos 1;
  version = pos 2;
  maturity = pos 1;
  prior_confidence = record { value = 10000 };
}

spec_registers : (register_rule_spec spec state).0 ≡ ok definition
unfolding register_rule_spec compile_rule_definition register_rule lookup
spec_registers = refl

entity_known : contains (pos 1) state.entities ≡ true
unfolding lookup eqb_ℤ
entity_known = refl

abbrev seen : Fields ℕ
seen = fields (("port", Value.int (pos 443)) ∷ [])

register-fire_example :
    (f : FiringTrace ℕ) × ((fire_rule_core definition tree output
        (pos 1)
        seen
        none
        (register_rule_spec spec state).1).0
      ≡ ok f)
    × (evaluate_condition tree seen ≡ ok f.fired)
register-fire_example =
    register-fire spec state definition tree output (pos 1) seen none spec_registers
      condition_compiles output_compiles entity_known

compile_lem_example :
    ((compile_rule_output spec ≡ ok output) ↔ (OutputOf spec.raw output × IsOutput output))
    × ((compile_required_evidence spec ≡ ok wanted)
        ↔ (EvidenceOf spec.raw wanted.evidence_types × Every IsUint16 wanted.evidence_types))
    × ((compile_rule_definition spec ≡ ok definition)
        ↔ (DefinitionOf spec definition × IsUint16 definition.id × IsMaturity definition.maturity))
compile_lem_example = compile_lem spec output wanted definition

-- `REASON_CODE_MAP`
abbrev reasons : List (Value ℕ × Value ℕ)
reasons =
    (Value.str "OPENSSH_7_SERIES_BANNER", Value.int (pos 1))
    ∷ (Value.str "SSH_PORT_OPEN", Value.int (pos 2))
    ∷ []

reasons_valid : validate_uint16_map reasons ≡ ok tt
unfolding validate_uint16_map validate_entries has_duplicates strip left_strip right_strip leb_ℤ
    eqb_ℤ elem
reasons_valid = refl

validate_lem_example :
    (validate_rule_id_map reasons ≡ ok tt → IsTable is_uint16 reasons)
    × (validate_uint16_map reasons ≡ ok tt → IsTable is_uint16 reasons)
    × (validate_claim_status_map reasons ≡ ok tt → IsTable is_allowed_status reasons)
validate_lem_example = validate_lem reasons
