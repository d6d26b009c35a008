-- ===== src/Session/Refinement/Stores.antt =====
-- The calls of ragcore/_engine/rules.py and hint_evidence.py, as steps of the abstract machine.
use intelligent_rag_framewor.Prelude.{
  ℤ, pos, ◌+ℤ◌, ◌≡◌, ◌⊎◌, inl, inr, true, Option, none, List, [], Option-cases, Result-cases,
  difference, arith, int_eq, pair_eq,
}
use intelligent_rag_framewor.Prelude.Dict.{lookup, contains, insert}
use intelligent_rag_framewor.Floats.{Floats}
use intelligent_rag_framewor.Value.{Value}
use intelligent_rag_framewor.Types.{ScoreValue, RuleDefinition, RuleStats}
use intelligent_rag_framewor.Engine.State.{Engine}
use intelligent_rag_framewor.Engine.Rules.{register_rule, update_rule_stats, new_stats, updated}
use intelligent_rag_framewor.Engine.HintEvidence.{
  register_hint_evidence_types, unregister_hint_evidence_types, clear_hint_evidence_types,
  change_hints, update_set, validate_hint_evidence_type_values,
}
use intelligent_rag_framewor.Spec.{Step, Steps, one_step, counted}

module _ {F : Type 0} ⦃fl : Floats F⦄ (s : Engine F) where
  abbrev revised : Engine F → Engine F
  revised t = record t { state_revision = s.state_revision +ℤ pos 1 }

  register_rule_outcome :
      (d : RuleDefinition F)
      → ((register_rule d s).1 ≡ s)
        ⊎ (((register_rule d s).1
              ≡ revised (record s {
                rule_definitions = insert (d.id, d.version) d s.rule_definitions;
                rule_stats = insert (d.id, d.version) (new_stats d.id d.version) s.rule_stats;
              }))
            × (lookup (d.id, d.version) s.rule_definitions ≡ none))
  unfolding register_rule
  register_rule_outcome d = ground arith

  pub register_rule-Steps : (d : RuleDefinition F) → Steps s (register_rule d s).1
  register_rule-Steps d = elim (register_rule_outcome d) [
    | inl same ↦ rw same Steps.here
    | inr (new, free) ↦ rw new (counted (Step.register_rule d (new_stats d.id d.version) free))
  ]

  update_rule_stats_outcome :
      (r v n t f : ℤ) (p q : Option (ScoreValue F))
      → ((update_rule_stats r v n t f p q s).1 ≡ s)
        ⊎ ((x : RuleStats F) × (contains (r, v) s.rule_stats ≡ true)
            × (((update_rule_stats r v n t f p q s).1
                  ≡ record s { rule_stats = insert (r, v) x s.rule_stats })
                ⊎ ((update_rule_stats r v n t f p q s).1
                    ≡ revised (record s { rule_stats = insert (r, v) x s.rule_stats }))))
  unfolding update_rule_stats
  update_rule_stats_outcome r v n t f p q = elim (Option-cases (lookup (r, v) s.rule_stats)) [
    | inl unknown ↦ inl (ground arith)
    | inr (x, known) ↦ inr (updated x n t f p q, ground arith, ground arith)
  ]

  pub update_rule_stats-Steps :
      (r v n t f : ℤ) (p q : Option (ScoreValue F)) → Steps s (update_rule_stats r v n t f p q s).1
  update_rule_stats-Steps r v n t f p q = elim (update_rule_stats_outcome r v n t f p q) [
    | inl same ↦ rw same Steps.here
    | inr (x, known, inl new) ↦ rw new (one_step (Step.update_stats r v x known))
    | inr (x, known, inr new) ↦ rw new (counted (Step.update_stats r v x known))
  ]

  change_hints_outcome :
      (ns : List ℤ)
      → ((change_hints ns s).1 ≡ record s { hint_evidence_types = ns })
        ⊎ ((change_hints ns s).1 ≡ revised (record s { hint_evidence_types = ns }))
  unfolding change_hints
  change_hints_outcome ns = ground arith

  change_hints-Steps : (ns : List ℤ) → Steps s (change_hints ns s).1
  change_hints-Steps ns = elim (change_hints_outcome ns) [
    | inl new ↦ rw new (one_step (Step.set_hints ns))
    | inr new ↦ rw new (counted (Step.set_hints ns))
  ]

  register_hints_outcome :
      (types : Value F)
      → ((register_hint_evidence_types types s).1 ≡ s)
        ⊎ ((ns : List ℤ) × ((register_hint_evidence_types types s).1 ≡ (change_hints ns s).1))
  unfolding register_hint_evidence_types
  register_hints_outcome types = elim (Result-cases (validate_hint_evidence_type_values types)) [
    | inl (ns, valid) ↦ inr (update_set s.hint_evidence_types ns, ground arith)
    | inr (e, invalid) ↦ inl (ground arith)
  ]

  pub register_hint_evidence_types-Steps :
      (types : Value F) → Steps s (register_hint_evidence_types types s).1
  register_hint_evidence_types-Steps types = elim (register_hints_outcome types) [
    | inl same ↦ rw same Steps.here
    | inr (ns, new) ↦ rw new (change_hints-Steps ns)
  ]

  unregister_hints_outcome :
      (types : Value F)
      → ((unregister_hint_evidence_types types s).1 ≡ s)
        ⊎ ((ns : List ℤ) × ((unregister_hint_evidence_types types s).1 ≡ (change_hints ns s).1))
  unfolding unregister_hint_evidence_types
  unregister_hints_outcome types = elim (Result-cases (validate_hint_evidence_type_values types)) [
    | inl (ns, valid) ↦ inr (difference s.hint_evidence_types ns, ground arith)
    | inr (e, invalid) ↦ inl (ground arith)
  ]

  pub unregister_hint_evidence_types-Steps :
      (types : Value F) → Steps s (unregister_hint_evidence_types types s).1
  unregister_hint_evidence_types-Steps types = elim (unregister_hints_outcome types) [
    | inl same ↦ rw same Steps.here
    | inr (ns, new) ↦ rw new (change_hints-Steps ns)
  ]

  clear_outcome :
      ((clear_hint_evidence_types s).1 ≡ s)
      ⊎ ((clear_hint_evidence_types s).1 ≡ revised (record s { hint_evidence_types = [] }))
  unfolding clear_hint_evidence_types
  clear_outcome = ground arith

  pub clear_hint_evidence_types-Steps : Steps s (clear_hint_evidence_types s).1
  clear_hint_evidence_types-Steps = elim clear_outcome [
    | inl same ↦ rw same Steps.here
    | inr new ↦ rw new (counted (Step.set_hints []))
  ]
