-- ===== src/Loading/Loaded.antt =====
-- What `load_condition_tree` of ragcore/condition.py gives, and the way back.
use intelligent_rag_framewor.Prelude.{
  String, ◌≡◌, refl, ◌⊎◌, inl, inr, Bool, true, false, ◌||◌, none, some, ok, arith, ◌==◌, string_eq,
  all, any, elem, Result-cases, Option-cases,
}
use intelligent_rag_framewor.Value.{Value, Values, Fields}
use intelligent_rag_framewor.Value.Comparison.{lookup_field}
use intelligent_rag_framewor.Condition.{Predicate, ConditionTree, ConditionTrees}
use intelligent_rag_framewor.Condition.Agreement.{IsLoaded, AreLoaded, is_valid_op}
use intelligent_rag_framewor.Loading.Text.{strip, strip-strip}
use intelligent_rag_framewor.Loading.Tree.{
  valid_ops, load_predicate, predicate_of, node_kind, load_condition_tree, load_at, load_children,
  load_each,
}

eq_sym : (a b : String) → (a == b) ≡ (b == a)
eq_sym a b = ground (arith, string_eq.test_iff a b, string_eq.test_iff b a)

same_ops :
    (a b c d e f g : Bool)
    → (a || (b || (c || (d || (e || (f || (g || false))))))) ≡ true
    → (a || (b || ((c || (d || (e || f))) || g))) ≡ true
same_ops true b c d e f g h = refl
same_ops false true c d e f g h = refl
same_ops false false true d e f g h = refl
same_ops false false false true e f g h = refl
same_ops false false false false true f g h = refl
same_ops false false false false false true g h = refl
same_ops false false false false false false true h = refl
same_ops false false false false false false false h = h

valid_op-known : (op : String) → elem op valid_ops ≡ true → is_valid_op op ≡ true
unfolding elem
valid_op-known op h =
    rw
      (
        eq_sym op "eq",
        eq_sym op "ne",
        eq_sym op "lt",
        eq_sym op "le",
        eq_sym op "gt",
        eq_sym op "ge",
        eq_sym op "contains",
      )
      (same_ops ("eq" == op) ("ne" == op) ("lt" == op) ("le" == op) ("gt" == op) ("ge" == op)
        ("contains" == op) h)

kind_cases :
    (kind : String) → (kind == "all" || kind == "any") ≡ true → (kind ≡ "all") ⊎ (kind ≡ "any")
kind_cases kind h = ground (arith, string_eq.test_iff kind "all", string_eq.test_iff kind "any")

module _ {F : Type 0} where
  -- a predicate with a name that is stripped and not empty, and a known operator
  abbrev pub IsPredicate : Predicate F → Type 0
  IsPredicate p =
      (strip p.field ≡ p.field) × ((p.field == "") ≡ false) × (elem p.op valid_ops ≡ true)

  abbrev mutual
    pub IsTree : ConditionTree F → Type 0
    IsTree (ConditionTree.predicate p) = IsPredicate p
    IsTree (ConditionTree.combinator kind children) =
        ((kind == "all" || kind == "any") ≡ true) × AreTrees children

    pub AreTrees : ConditionTrees F → Type 0
    AreTrees ConditionTrees.nil = Unit
    AreTrees (ConditionTrees.child tree trees) = IsTree tree × AreTrees trees

  -- a tree as the value that a rule file holds
  abbrev mutual
    pub dump : ConditionTree F → Value F
    dump (ConditionTree.predicate p) = Value.mapping (
        Fields.field "field" (Value.str p.field)
          (Fields.field "op" (Value.str p.op) (Fields.field "value" p.value Fields.end)))
    dump (ConditionTree.combinator kind children) =
        Value.mapping (Fields.field kind (Value.list (dump_each children)) Fields.end)

    pub dump_each : ConditionTrees F → Values F
    dump_each ConditionTrees.nil = Values.nil
    dump_each (ConditionTrees.child tree trees) = Values.cons (dump tree) (dump_each trees)

  predicate_of-IsPredicate :
      (a b v : Value F) (p : Predicate F) → predicate_of a b v ≡ ok p → IsPredicate p
  predicate_of-IsPredicate (Value.str field) (Value.str name) v p h =
      ground (arith, strip-strip field)
  predicate_of-IsPredicate (Value.str field) Value.null v p h = ground arith
  predicate_of-IsPredicate (Value.str field) (Value.bool _) v p h = ground arith
  predicate_of-IsPredicate (Value.str field) (Value.int _) v p h = ground arith
  predicate_of-IsPredicate (Value.str field) (Value.float _) v p h = ground arith
  predicate_of-IsPredicate (Value.str field) (Value.list _) v p h = ground arith
  predicate_of-IsPredicate (Value.str field) (Value.tuple _) v p h = ground arith
  predicate_of-IsPredicate (Value.str field) (Value.mapping _) v p h = ground arith
  predicate_of-IsPredicate Value.null b v p h = ground arith
  predicate_of-IsPredicate (Value.bool _) b v p h = ground arith
  predicate_of-IsPredicate (Value.int _) b v p h = ground arith
  predicate_of-IsPredicate (Value.float _) b v p h = ground arith
  predicate_of-IsPredicate (Value.list _) b v p h = ground arith
  predicate_of-IsPredicate (Value.tuple _) b v p h = ground arith
  predicate_of-IsPredicate (Value.mapping _) b v p h = ground arith

  load_predicate-IsPredicate :
      (raw : Fields F) (p : Predicate F) → load_predicate raw ≡ ok p → IsPredicate p
  unfolding load_predicate
  load_predicate-IsPredicate raw p h = elim (Option-cases (lookup_field "field" raw)) [
    | inl missing ↦ ground arith
    | inr (a, found) ↦ elim (Option-cases (lookup_field "op" raw)) [
      | inl missing ↦ ground arith
      | inr (b, found_op) ↦ elim (Option-cases (lookup_field "value" raw)) [
        | inl missing ↦ ground arith
        | inr (v, found_value) ↦ predicate_of-IsPredicate a b v p (ground arith)
      ]
    ]
  ]

  node_kind-known :
      (raw : Fields F) (kind : String)
      → node_kind raw ≡ ok (some kind)
      → (kind == "all" || kind == "any") ≡ true
  unfolding node_kind
  node_kind-known raw kind h =
      ground (arith, string_eq.test_iff kind "all", string_eq.test_iff kind "any")

  mutual
    unfolding load_condition_tree

    load_condition_tree-IsTree :
        (v : Value F) (tree : ConditionTree F) → load_condition_tree v ≡ ok tree → IsTree tree
    load_condition_tree-IsTree (Value.mapping raw) tree h = elim (Result-cases (node_kind raw)) [
      | inr (e, failed) ↦ ground arith
      | inl (none, plain) ↦ elim (Result-cases (load_predicate raw)) [
        | inr (e, failed) ↦ ground arith
        | inl (p, loaded) ↦
            let e : tree ≡ ConditionTree.predicate p = ground arith in
            rw e (load_predicate-IsPredicate raw p loaded)
      ]
      | inl (some kind, known) ↦ elim (Result-cases (load_at kind raw)) [
        | inr (e, failed) ↦ ground arith
        | inl (trees, loaded) ↦
            let e : tree ≡ ConditionTree.combinator kind trees = ground arith in
            rw e (node_kind-known raw kind known, load_at-AreTrees kind raw trees loaded)
      ]
    ]
    load_condition_tree-IsTree Value.null tree h = ground arith
    load_condition_tree-IsTree (Value.bool _) tree h = ground arith
    load_condition_tree-IsTree (Value.int _) tree h = ground arith
    load_condition_tree-IsTree (Value.float _) tree h = ground arith
    load_condition_tree-IsTree (Value.str _) tree h = ground arith
    load_condition_tree-IsTree (Value.list _) tree h = ground arith
    load_condition_tree-IsTree (Value.tuple _) tree h = ground arith

    load_at-AreTrees :
        (kind : String) (raw : Fields F) (trees : ConditionTrees F)
        → load_at kind raw ≡ ok trees
        → AreTrees trees
    load_at-AreTrees kind Fields.end trees h = ground arith
    load_at-AreTrees kind (Fields.field k v fs) trees h =
        ground (arith, load_children-AreTrees v trees, load_at-AreTrees kind fs trees)

    load_children-AreTrees :
        (v : Value F) (trees : ConditionTrees F) → load_children v ≡ ok trees → AreTrees trees
    load_children-AreTrees (Value.list vs) trees h = load_each-AreTrees vs trees h
    load_children-AreTrees Value.null trees h = ground arith
    load_children-AreTrees (Value.bool _) trees h = ground arith
    load_children-AreTrees (Value.int _) trees h = ground arith
    load_children-AreTrees (Value.float _) trees h = ground arith
    load_children-AreTrees (Value.str _) trees h = ground arith
    load_children-AreTrees (Value.tuple _) trees h = ground arith
    load_children-AreTrees (Value.mapping _) trees h = ground arith

    load_each-AreTrees :
        (vs : Values F) (trees : ConditionTrees F) → load_each vs ≡ ok trees → AreTrees trees
    load_each-AreTrees Values.nil trees h =
        let e : trees ≡ ConditionTrees.nil = ground arith in rw e tt
    load_each-AreTrees (Values.cons v vs) trees h = elim (Result-cases (load_condition_tree v)) [
      | inr (e, failed) ↦ ground arith
      | inl (t, loaded) ↦ elim (Result-cases (load_each vs)) [
        | inr (e, failed) ↦ ground arith
        | inl (ts, rest) ↦
            let e : trees ≡ ConditionTrees.child t ts = ground arith in
            rw e (load_condition_tree-IsTree v t loaded, load_each-AreTrees vs ts rest)
      ]
    ]

  predicate_trip :
      (p : Predicate F)
      → IsPredicate p
      → load_condition_tree (dump (ConditionTree.predicate p)) ≡ ok (ConditionTree.predicate p)
  unfolding load_condition_tree load_predicate node_kind all any elem
  predicate_trip p (same, full, known) = rw (same, full, known) refl

  mutual
    unfolding load_condition_tree node_kind all any elem

    tree_trip : (tree : ConditionTree F) → IsTree tree → load_condition_tree (dump tree) ≡ ok tree
    tree_trip (ConditionTree.predicate p) h = predicate_trip p h
    tree_trip (ConditionTree.combinator kind children) (known, h) = elim (kind_cases kind known) [
      | inl e ↦ rw (e, each_trip children h) refl
      | inr e ↦ rw (e, each_trip children h) refl
    ]

    each_trip : (trees : ConditionTrees F) → AreTrees trees → load_each (dump_each trees) ≡ ok trees
    each_trip ConditionTrees.nil h = refl
    each_trip (ConditionTrees.child tree trees) (own, h) =
        rw (tree_trip tree own, each_trip trees h) refl

  mutual
    Tree-IsLoaded : (tree : ConditionTree F) → IsTree tree → IsLoaded tree
    Tree-IsLoaded (ConditionTree.predicate p) h = valid_op-known p.op h.2
    Tree-IsLoaded (ConditionTree.combinator kind children) (known, h) =
        (known, Trees-AreLoaded children h)

    Trees-AreLoaded : (trees : ConditionTrees F) → AreTrees trees → AreLoaded trees
    Trees-AreLoaded ConditionTrees.nil h = tt
    Trees-AreLoaded (ConditionTrees.child tree trees) (own, h) =
        (Tree-IsLoaded tree own, Trees-AreLoaded trees h)

  -- A tree that `load_condition_tree` gives is well formed (its operators and combinators are the
  -- known ones, its field names stripped and not empty), and loads again, to itself, from the value
  -- that holds it.
  pub load-dump :
      (v : Value F) (tree : ConditionTree F)
      → load_condition_tree v ≡ ok tree
      → IsTree tree × (load_condition_tree (dump tree) ≡ ok tree)
  load-dump v tree h =
      (load_condition_tree-IsTree v tree h, tree_trip tree (load_condition_tree-IsTree v tree h))

  pub load-IsLoaded :
      (v : Value F) (tree : ConditionTree F) → load_condition_tree v ≡ ok tree → IsLoaded tree
  load-IsLoaded v tree h = Tree-IsLoaded tree (load_condition_tree-IsTree v tree h)
