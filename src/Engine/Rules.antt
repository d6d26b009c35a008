-- ===== src/Engine/Rules.antt =====
-- ragcore/_engine/rules.py: rule definitions and their operational statistics.
use intelligent_rag_framewor.Prelude.{
  ℤ, pos, ◌+ℤ◌, Bool, true, false, ◌&&◌, Option, none, some, value_error, int_eq, pair_eq, ◌==◌,
  if◌then◌else◌,
}
use intelligent_rag_framewor.Prelude.Dict.{lookup, contains, insert}
use intelligent_rag_framewor.Floats.{Floats, feq}
use intelligent_rag_framewor.Types.{ScoreValue, RuleDefinition, RuleStats}
use intelligent_rag_framewor.Engine.State.{
  Call, ◌>>=◌, ◌>>◌, pure, gets, item, modify, fail_if, advance_state_revision,
  assert_rule_pair_exists, assert_rule_stats_pair_exists,
}

module _ {F : Type 0} where
  abbrev pub new_stats : ℤ → ℤ → RuleStats F
  new_stats rule_id rule_version = record {
    rule_id = rule_id;
    rule_version = rule_version;
    firing_count = pos 0;
    confirmed_true_count = pos 0;
    confirmed_false_count = pos 0;
    observed_precision = none;
    false_positive_rate = none;
  }

  unfoldable pub register_rule : RuleDefinition F → Call F (Unit {0})
  unfolding advance_state_revision
  register_rule definition = do
    known ← gets (λ s. contains (definition.id, definition.version) s.rule_definitions)
    fail_if known value_error
    modify (λ s. record s {
      rule_definitions = insert (definition.id, definition.version) definition s.rule_definitions;
      rule_stats =
          insert (definition.id, definition.version) (new_stats definition.id definition.version)
            s.rule_stats;
    })
    advance_state_revision

  unfoldable pub get_rule : ℤ → ℤ → Call F (RuleDefinition F)
  unfolding assert_rule_pair_exists
  get_rule rule_id rule_version = do
    assert_rule_pair_exists rule_id rule_version
    found ← gets (λ s. lookup (rule_id, rule_version) s.rule_definitions)
    item found

  unfoldable pub get_rule_stats : ℤ → ℤ → Call F (RuleStats F)
  unfolding assert_rule_stats_pair_exists
  get_rule_stats rule_id rule_version = do
    assert_rule_stats_pair_exists rule_id rule_version
    found ← gets (λ s. lookup (rule_id, rule_version) s.rule_stats)
    item found

  -- `new if new is not None else current`
  abbrev pub or_current : Option (ScoreValue F) → Option (ScoreValue F) → Option (ScoreValue F)
  or_current none current = current
  or_current (some new) current = some new

  -- the instance that replaces the stored one
  unfoldable pub updated :
      RuleStats F → ℤ → ℤ → ℤ → Option (ScoreValue F) → Option (ScoreValue F) → RuleStats F
  updated current firing_delta true_delta false_delta observed_precision false_positive_rate =
      record {
        rule_id = current.rule_id;
        rule_version = current.rule_version;
        firing_count = current.firing_count +ℤ firing_delta;
        confirmed_true_count = current.confirmed_true_count +ℤ true_delta;
        confirmed_false_count = current.confirmed_false_count +ℤ false_delta;
        observed_precision = or_current observed_precision current.observed_precision;
        false_positive_rate = or_current false_positive_rate current.false_positive_rate;
      }

module _ {F : Type 0} ⦃fl : Floats F⦄ where
  abbrev pub score_eq : Option (ScoreValue F) → Option (ScoreValue F) → Bool
  score_eq none none = true
  score_eq (some a) (some b) = feq a.value b.value
  score_eq _ _ = false

  -- `==` of the data class
  unfoldable pub stats_eq : RuleStats F → RuleStats F → Bool
  stats_eq a b =
      a.rule_id == b.rule_id
      && (a.rule_version == b.rule_version
          && (a.firing_count == b.firing_count
              && (a.confirmed_true_count == b.confirmed_true_count
                  && (a.confirmed_false_count == b.confirmed_false_count
                      && (score_eq a.observed_precision b.observed_precision
                          && score_eq a.false_positive_rate b.false_positive_rate)))))

  unfoldable pub update_rule_stats :
      ℤ → ℤ → ℤ → ℤ → ℤ → Option (ScoreValue F) → Option (ScoreValue F) → Call F (Unit {0})
  unfolding assert_rule_stats_pair_exists advance_state_revision
  update_rule_stats rule_id rule_version firing_delta true_delta false_delta observed_precision
        false_positive_rate =
      do
        assert_rule_stats_pair_exists rule_id rule_version
        found ← gets (λ s. lookup (rule_id, rule_version) s.rule_stats)
        current ← item found
        let updated_stats : RuleStats F =
            updated current firing_delta true_delta false_delta observed_precision
              false_positive_rate
        modify (λ s. record s {
          rule_stats = insert (rule_id, rule_version) updated_stats s.rule_stats;
        })
        if stats_eq updated_stats current then pure tt else advance_state_revision
