-- ===== src/Condition.antt =====
-- ragcore/condition.py: condition trees, their evaluation, and the evaluation with a trace.
pub mod Agreement
use intelligent_rag_framewor.Prelude.{
  String, Bool, true, false, not, ◌&&◌, ◌||◌, Option, none, some, List, [], ◌∷◌, Result, ok, raise,
  value_error, and_then, ◌==◌, string_eq, any, if◌then◌else◌,
}
use intelligent_rag_framewor.Value.{Value, Fields, to_list}
use intelligent_rag_framewor.Value.Comparison.{
  Number, Numbers, lookup_field, as_number, is_substring, value_eq,
}

pub record Predicate (F : Type 0) : Type 0 where
  pub field : String
  pub op : String
  pub value : Value F

mutual
  pub data ConditionTree (F : Type 0) : Type 0 where
    predicate : Predicate F → ConditionTree F
    combinator : String → ConditionTrees F → ConditionTree F

  pub data ConditionTrees (F : Type 0) : Type 0 where
    nil : ConditionTrees F
    child : ConditionTree F → ConditionTrees F → ConditionTrees F

pub record PredicateTrace (F : Type 0) : Type 0 where
  pub field : String
  pub op : String
  pub expected : Value F
  pub actual : Value F
  pub actual_present : Bool
  pub result : Bool
  pub reason : String

mutual
  pub data Trace (F : Type 0) : Type 0 where
    predicate : PredicateTrace F → Trace F
    -- kind, children, result
    combinator : String → Traces F → Bool → Trace F

  pub data Traces (F : Type 0) : Type 0 where
    nil : Traces F
    child : Trace F → Traces F → Traces F

module _ {F : Type 0} where
  -- `trace.result`
  abbrev pub result_of : Trace F → Bool
  result_of (Trace.predicate t) = t.result
  result_of (Trace.combinator kind children result) = result

  abbrev pub all_results : Traces F → Bool
  all_results Traces.nil = true
  all_results (Traces.child t ts) = result_of t && all_results ts

  abbrev pub any_results : Traces F → Bool
  any_results Traces.nil = false
  any_results (Traces.child t ts) = result_of t || any_results ts

  -- `_is_numeric`: `bool` is none
  abbrev pub numeric : Value F → Option (Number F)
  numeric (Value.int n) = some (Number.int n)
  numeric (Value.float x) = some (Number.float x)
  numeric _ = none

abbrev pub matched : Bool → Bool × String
matched true = (true, "match")
matched false = (false, "mismatch")

abbrev pub is_numeric_op : String → Bool
is_numeric_op op = op == "lt" || (op == "le" || (op == "gt" || op == "ge"))

module _ {F : Type 0} ⦃nums : Numbers F⦄ where
  -- `op`, one of the numeric ones, on two numbers
  unfoldable pub compare_numbers : String → Number F → Number F → Bool
  compare_numbers op a b =
      if op == "lt"
      then nums.less a b
      else if op == "le"
      then nums.at_most a b
      else if op == "gt"
      then nums.less b a
      else nums.at_most b a

  unfoldable pub evaluate_contains : Value F → Value F → Bool
  unfolding value_eq
  evaluate_contains (Value.str text) (Value.str needle) = is_substring needle text
  evaluate_contains (Value.list vs) expected = any (λ v. value_eq expected v) (to_list vs)
  evaluate_contains (Value.tuple vs) expected = any (λ v. value_eq expected v) (to_list vs)
  evaluate_contains _ expected = false

  abbrev pub compare_values : String → Option (Number F) → Option (Number F) → Bool
  compare_values op (some a) (some b) = compare_numbers op a b
  compare_values op _ _ = false

  unfoldable pub evaluate_op : String → Value F → Value F → Result Bool
  evaluate_op op actual expected =
      if op == "eq"
      then ok (value_eq actual expected)
      else if op == "ne"
      then ok (not (value_eq actual expected))
      else if is_numeric_op op
      then ok (compare_values op (numeric actual) (numeric expected))
      else if op == "contains"
      then ok (evaluate_contains actual expected)
      else raise value_error

  unfoldable pub evaluate_predicate : Predicate F → Fields F → Result Bool
  evaluate_predicate pred context = elim (lookup_field pred.field context) [
    | none ↦ ok false
    | some actual ↦ evaluate_op pred.op actual pred.value
  ]

  unfoldable mutual
    pub evaluate_condition : ConditionTree F → Fields F → Result Bool
    evaluate_condition (ConditionTree.predicate pred) context = evaluate_predicate pred context
    evaluate_condition (ConditionTree.combinator kind children) context =
        if kind == "all"
        then evaluate_all children context
        else if kind == "any"
        then evaluate_any children context
        else raise value_error

    -- `all`, which stops at the first false
    pub evaluate_all : ConditionTrees F → Fields F → Result Bool
    evaluate_all ConditionTrees.nil context = ok true
    evaluate_all (ConditionTrees.child tree trees) context =
        elim (evaluate_condition tree context) [
          | raise e ↦ raise e
          | ok false ↦ ok false
          | ok true ↦ evaluate_all trees context
        ]

    -- `any`, which stops at the first true
    pub evaluate_any : ConditionTrees F → Fields F → Result Bool
    evaluate_any ConditionTrees.nil context = ok false
    evaluate_any (ConditionTrees.child tree trees) context =
        elim (evaluate_condition tree context) [
          | raise e ↦ raise e
          | ok true ↦ ok true
          | ok false ↦ evaluate_any trees context
        ]

  unfoldable pub contains_with_reason : Value F → Value F → Bool × String
  unfolding value_eq
  contains_with_reason (Value.str text) (Value.str needle) = matched (is_substring needle text)
  contains_with_reason (Value.list vs) expected =
      matched (any (λ v. value_eq expected v) (to_list vs))
  contains_with_reason (Value.tuple vs) expected =
      matched (any (λ v. value_eq expected v) (to_list vs))
  contains_with_reason _ expected = (false, "type_mismatch")

  abbrev pub compare_with_reason : String → Option (Number F) → Option (Number F) → Bool × String
  compare_with_reason op (some a) (some b) =
      if op == "lt"
      then matched (nums.less a b)
      else if op == "le"
      then matched (nums.at_most a b)
      else if op == "gt"
      then matched (nums.less b a)
      else matched (nums.at_most b a)
  compare_with_reason op _ _ = (false, "type_mismatch")

  unfoldable pub eval_op_with_reason : String → Value F → Value F → Result (Bool × String)
  eval_op_with_reason op actual expected =
      if op == "eq"
      then ok (matched (value_eq actual expected))
      else if op == "ne"
      then ok (matched (not (value_eq actual expected)))
      else if is_numeric_op op
      then ok (compare_with_reason op (numeric actual) (numeric expected))
      else if op == "contains"
      then ok (contains_with_reason actual expected)
      else raise value_error

  unfoldable pub trace_predicate : Predicate F → Fields F → Result (PredicateTrace F)
  trace_predicate pred context = elim (lookup_field pred.field context) [
    | none ↦ ok (record {
      field = pred.field;
      op = pred.op;
      expected = pred.value;
      actual = Value.null;
      actual_present = false;
      result = false;
      reason = "missing_field";
    })
    | some actual ↦ elim (eval_op_with_reason pred.op actual pred.value) [
      | raise e ↦ raise e
      | ok found ↦ ok (record {
        field = pred.field;
        op = pred.op;
        expected = pred.value;
        actual = actual;
        actual_present = true;
        result = found.0;
        reason = found.1;
      })
    ]
  ]

  unfoldable mutual
    pub evaluate_condition_with_trace : ConditionTree F → Fields F → Result (Trace F)
    evaluate_condition_with_trace (ConditionTree.predicate pred) context =
        elim (trace_predicate pred context) [ raise e ↦ raise e | ok t ↦ ok (Trace.predicate t) ]
    evaluate_condition_with_trace (ConditionTree.combinator kind children) context =
        elim (trace_children children context) [
          | raise e ↦ raise e
          | ok ts ↦
              if kind == "all"
              then ok (Trace.combinator kind ts (all_results ts))
              else if kind == "any"
              then ok (Trace.combinator kind ts (any_results ts))
              else raise value_error
        ]

    pub trace_children : ConditionTrees F → Fields F → Result (Traces F)
    trace_children ConditionTrees.nil context = ok Traces.nil
    trace_children (ConditionTrees.child tree trees) context =
        elim (evaluate_condition_with_trace tree context) [
          | raise e ↦ raise e
          | ok t ↦ elim (trace_children trees context) [
            | raise e ↦ raise e
            | ok ts ↦ ok (Traces.child t ts)
          ]
        ]
