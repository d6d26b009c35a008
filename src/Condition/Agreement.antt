-- ===== src/Condition/Agreement.antt =====
-- The two evaluations of ragcore/condition.py agree.
use intelligent_rag_framewor.Prelude.{
  String, ◌≡◌, refl, Bool, true, false, not, ◌||◌, Option, none, some, ok, arith, ◌==◌, string_eq,
  inl, inr, Result-cases, Option-cases, any, Bool-cases,
}
use intelligent_rag_framewor.Value.{Value, Fields, to_list}
use intelligent_rag_framewor.Value.Comparison.{
  Number, Numbers, lookup_field, is_substring, value_eq,
}
use intelligent_rag_framewor.Condition.{
  Predicate, PredicateTrace, ConditionTree, ConditionTrees, Trace, Traces, result_of, all_results,
  any_results, is_numeric_op, matched, numeric, compare_values, compare_with_reason,
  compare_numbers, evaluate_contains, contains_with_reason, evaluate_op, eval_op_with_reason,
  evaluate_predicate, trace_predicate, evaluate_condition, evaluate_all, evaluate_any,
  evaluate_condition_with_trace, trace_children,
}

matched_result : (b : Bool) → (matched b).0 ≡ b
matched_result true = refl
matched_result false = refl

module _ {F : Type 0} ⦃nums : Numbers F⦄ where
  contains_agrees : (a e : Value F) → (contains_with_reason a e).0 ≡ evaluate_contains a e
  unfolding contains_with_reason evaluate_contains
  contains_agrees Value.null e = refl
  contains_agrees (Value.bool b) e = refl
  contains_agrees (Value.int n) e = refl
  contains_agrees (Value.float x) e = refl
  contains_agrees (Value.str text) (Value.str needle) = matched_result (is_substring needle text)
  contains_agrees (Value.str text) Value.null = refl
  contains_agrees (Value.str text) (Value.bool b) = refl
  contains_agrees (Value.str text) (Value.int n) = refl
  contains_agrees (Value.str text) (Value.float x) = refl
  contains_agrees (Value.str text) (Value.list vs) = refl
  contains_agrees (Value.str text) (Value.tuple vs) = refl
  contains_agrees (Value.str text) (Value.mapping fs) = refl
  contains_agrees (Value.list vs) e = matched_result (any (λ v. value_eq e v) (to_list vs))
  contains_agrees (Value.tuple vs) e = matched_result (any (λ v. value_eq e v) (to_list vs))
  contains_agrees (Value.mapping fs) e = refl

  compare_agrees :
      (op : String) (a b : Option (Number F))
      → (compare_with_reason op a b).0 ≡ compare_values op a b
  unfolding compare_numbers
  compare_agrees op none none = refl
  compare_agrees op none (some b) = refl
  compare_agrees op (some a) none = refl
  compare_agrees op (some a) (some b) = ground (
    arith,
    matched_result (nums.less a b),
    matched_result (nums.at_most a b),
    matched_result (nums.less b a),
    matched_result (nums.at_most b a),
  )

  op_agrees :
      (op : String) (a e : Value F) (r : Bool × String)
      → eval_op_with_reason op a e ≡ ok r
      → evaluate_op op a e ≡ ok r.0
  unfolding eval_op_with_reason evaluate_op
  op_agrees op a e r h = ground (
    arith,
    matched_result (value_eq a e),
    matched_result (not (value_eq a e)),
    compare_agrees op (numeric a) (numeric e),
    contains_agrees a e,
  )

  predicate_agrees :
      (pred : Predicate F) (context : Fields F) (t : PredicateTrace F)
      → trace_predicate pred context ≡ ok t
      → evaluate_predicate pred context ≡ ok t.result
  unfolding trace_predicate evaluate_predicate
  predicate_agrees pred context t h = elim (Option-cases (lookup_field pred.field context)) [
    | inl missing ↦ ground arith
    | inr (actual, found) ↦ elim (Result-cases (eval_op_with_reason pred.op actual pred.value)) [
      | inl (r, read) ↦ ground (arith, op_agrees pred.op actual pred.value r read)
      | inr (e, failed) ↦ ground arith
    ]
  ]

  mutual
    unfolding evaluate_condition evaluate_condition_with_trace

    tree_agrees :
        (tree : ConditionTree F) (context : Fields F) (t : Trace F)
        → evaluate_condition_with_trace tree context ≡ ok t
        → evaluate_condition tree context ≡ ok (result_of t)
    tree_agrees (ConditionTree.predicate pred) context t h =
        elim (Result-cases (trace_predicate pred context)) [
          | inl (found, read) ↦ ground (arith, predicate_agrees pred context found read)
          | inr (e, failed) ↦ ground arith
        ]
    tree_agrees (ConditionTree.combinator kind children) context t h =
        elim (Result-cases (trace_children children context)) [
          | inl (ts, read) ↦ ground (arith, children_agree children context ts read)
          | inr (e, failed) ↦ ground arith
        ]

    children_agree :
        (trees : ConditionTrees F) (context : Fields F) (ts : Traces F)
        → trace_children trees context ≡ ok ts
        → (evaluate_all trees context ≡ ok (all_results ts))
          × (evaluate_any trees context ≡ ok (any_results ts))
    children_agree ConditionTrees.nil context ts h = ground arith
    children_agree (ConditionTrees.child tree trees) context ts h =
        elim (Result-cases (evaluate_condition_with_trace tree context)) [
          | inl (t, read) ↦ elim (Result-cases (trace_children trees context)) [
            | inl (rest, reads) ↦
                ground
                  (arith, tree_agrees tree context t read, children_agree trees context rest reads)
            | inr (e, failed) ↦ ground arith
          ]
          | inr (e, failed) ↦ ground arith
        ]

  -- Where `evaluate_condition_with_trace` returns a trace, `evaluate_condition`, which stops early,
  -- returns the result of the trace.
  pub evaluate_condition_agrees :
      (tree : ConditionTree F) (context : Fields F) (t : Trace F)
      → evaluate_condition_with_trace tree context ≡ ok t
      → evaluate_condition tree context ≡ ok (result_of t)
  evaluate_condition_agrees = tree_agrees

-- an operator of `VALID_OPS`
abbrev pub is_valid_op : String → Bool
is_valid_op op = op == "eq" || (op == "ne" || (is_numeric_op op || op == "contains"))

module _ {F : Type 0} where
  -- What `load_condition_tree` checks of operators and combinators.
  abbrev mutual
    pub IsLoaded : ConditionTree F → Type 0
    IsLoaded (ConditionTree.predicate pred) = is_valid_op pred.op ≡ true
    IsLoaded (ConditionTree.combinator kind children) =
        ((kind == "all" || kind == "any") ≡ true) × AreLoaded children

    pub AreLoaded : ConditionTrees F → Type 0
    AreLoaded ConditionTrees.nil = Unit
    AreLoaded (ConditionTrees.child tree trees) = IsLoaded tree × AreLoaded trees

module _ {F : Type 0} ⦃nums : Numbers F⦄ where
  predicate_traced :
      (pred : Predicate F) (context : Fields F)
      → is_valid_op pred.op ≡ true
      → (t : PredicateTrace F) × (trace_predicate pred context ≡ ok t)
  unfolding trace_predicate eval_op_with_reason
  predicate_traced pred context valid = elim (Result-cases (trace_predicate pred context)) [
    | inl (t, traced) ↦ (t, traced)
    | inr (e, failed) ↦ absurd (ground arith)
  ]

  mutual
    unfolding evaluate_condition_with_trace

    tree_traced :
        (tree : ConditionTree F) (context : Fields F)
        → IsLoaded tree
        → (t : Trace F) × (evaluate_condition_with_trace tree context ≡ ok t)
    tree_traced (ConditionTree.predicate pred) context valid =
        let (t, traced) = predicate_traced pred context valid in (Trace.predicate t, ground arith)
    tree_traced (ConditionTree.combinator kind children) context (valid, loaded) =
        let (ts, traced) = children_traced children context loaded in
        elim (Bool-cases (kind == "all")) [
          | inl every ↦ (Trace.combinator kind ts (all_results ts), ground arith)
          | inr other ↦ (Trace.combinator kind ts (any_results ts), ground arith)
        ]

    children_traced :
        (trees : ConditionTrees F) (context : Fields F)
        → AreLoaded trees
        → (ts : Traces F) × (trace_children trees context ≡ ok ts)
    children_traced ConditionTrees.nil context loaded = (Traces.nil, refl)
    children_traced (ConditionTrees.child tree trees) context (one, rest) =
        let (t, traced) = tree_traced tree context one in
        let (ts, all_traced) = children_traced trees context rest in
        (Traces.child t ts, ground arith)

  -- On a tree whose operators and combinators are the ones that loading allows, neither evaluation
  -- raises, whatever the values in the tree and in the context are, and the result of the trace is
  -- what `evaluate_condition` returns.
  pub evaluate_condition_total :
      (tree : ConditionTree F) (context : Fields F)
      → IsLoaded tree
      → (t : Trace F) × (evaluate_condition_with_trace tree context ≡ ok t)
        × (evaluate_condition tree context ≡ ok (result_of t))
  evaluate_condition_total tree context loaded =
      let (t, traced) = tree_traced tree context loaded in
      (t, traced, tree_agrees tree context t traced)
