-- ===== src/Session/Revision/Stores.antt =====
-- What the calls of ragcore/_engine/rules.py do to the revision.
use intelligent_rag_framewor.Prelude.{
  HasEq, ℤ, pos, ◌+ℤ◌, ◌≡◌, refl, ◌⊎◌, inl, inr, true, Option, none, some, Result, ok, raise,
  key_error, Bool-cases, Option-cases, ◌==◌, if◌then◌else◌, int_eq, pair_eq, arith,
}
use intelligent_rag_framewor.Prelude.Dict.{Dict, lookup, insert, lookup-insert}
use intelligent_rag_framewor.Floats.{Floats}
use intelligent_rag_framewor.Types.{RuleStats, RuleDefinition, ScoreValue}
use intelligent_rag_framewor.Engine.State.{Engine}
use intelligent_rag_framewor.Engine.Rules
use intelligent_rag_framewor.Engine.Rules.{stats_eq, updated}
use intelligent_rag_framewor.Session.Revision.Crud.{Counted}

module _ {F : Type 0} (s : Engine F) where
  pub register_rule-Counted : (d : RuleDefinition F) → Counted s (Rules.register_rule d s)
  unfolding Rules.register_rule
  register_rule-Counted d = ground arith

-- Entries of one key that Python's `==` cannot tell apart, if they are not the same value.
abbrev pub StatsAgree :
    {F : Type 0} ⦃fl : Floats F⦄ → Option (RuleStats F) → Option (RuleStats F) → Type 0
StatsAgree none none = Unit
StatsAgree (some a) (some b) = (b ≡ a) ⊎ (stats_eq b a ≡ true)
StatsAgree _ _ = ⊥

-- The engine is as it was, but for statistics that are equal under `==`.
abbrev pub Unobserved : {F : Type 0} ⦃fl : Floats F⦄ → Engine F → Engine F → Type 0
Unobserved s s' =
    (s' ≡ record s { rule_stats = s'.rule_stats })
    × ((key : ℤ × ℤ) → StatsAgree (lookup key s.rule_stats) (lookup key s'.rule_stats))

-- A raise left everything as it was; a return left it unobservably so, at the same revision, or
-- advanced the revision by one.
abbrev pub Advances : {F A : Type 0} ⦃fl : Floats F⦄ → Engine F → Result A × Engine F → Type 0
Advances s (raise e, s') = s' ≡ s
Advances s (ok a, s') = Unobserved s s' ⊎ (s'.state_revision ≡ s.state_revision +ℤ pos 1)

module _ {F : Type 0} ⦃fl : Floats F⦄ (s : Engine F) where
  StatsAgree-refl : (o : Option (RuleStats F)) → StatsAgree o o
  StatsAgree-refl none = tt
  StatsAgree-refl (some a) = inl refl

  pub Counted-Advances : {A : Type 0} (out : Result A × Engine F) → Counted s out → Advances s out
  Counted-Advances (raise e, s') h = h
  Counted-Advances (ok a, s') (inl e) =
      rw e (inl (refl, λ key. StatsAgree-refl (lookup key s.rule_stats)))
  Counted-Advances (ok a, s') (inr e) = inr e

  StatsAgree-insert :
      {K : Type 0} ⦃e : HasEq K⦄ (k key : K) (old new : RuleStats F) (d : Dict K (RuleStats F))
      → lookup k d ≡ some old
      → stats_eq new old ≡ true
      → StatsAgree (lookup key d) (lookup key (insert k new d))
  StatsAgree-insert ⦃e⦄ k key old new d known same = elim (Bool-cases (k == key)) [
    | inl h ↦ rw (lookup-insert, h, ← (e.test_iff k key).0 h, known) (inr same)
    | inr h ↦ rw (lookup-insert, h) (StatsAgree-refl (lookup key d))
  ]

  update_rule_stats-eq :
      (r v n t f : ℤ) (p q : Option (ScoreValue F)) (current : RuleStats F)
      → lookup (r, v) s.rule_stats ≡ some current
      → let new = updated current n t f p q in
        let s' = record s { rule_stats = insert (r, v) new s.rule_stats } in
        Rules.update_rule_stats r v n t f p q s ≡ (
          ok tt,
          if stats_eq new current
              then s'
              else record s' { state_revision = s.state_revision +ℤ pos 1 },
        )
  unfolding Rules.update_rule_stats
  update_rule_stats-eq r v n t f p q current known = ground arith

  update_rule_stats-unknown :
      (r v n t f : ℤ) (p q : Option (ScoreValue F))
      → lookup (r, v) s.rule_stats ≡ none
      → Rules.update_rule_stats r v n t f p q s ≡ (raise key_error, s)
  unfolding Rules.update_rule_stats
  update_rule_stats-unknown r v n t f p q unknown = ground arith

  pub update_rule_stats-Advances :
      (r v n t f : ℤ) (p q : Option (ScoreValue F))
      → Advances s (Rules.update_rule_stats r v n t f p q s)
  update_rule_stats-Advances r v n t f p q = elim (Option-cases (lookup (r, v) s.rule_stats)) [
    | inl unknown ↦ rw (update_rule_stats-unknown r v n t f p q unknown) refl
    | inr (current, known) ↦
        let new = updated current n t f p q in
        rw (update_rule_stats-eq r v n t f p q current known)
          (elim (Bool-cases (stats_eq new current)) [
            | inl same ↦ rw same (
                inl (refl, λ key. StatsAgree-insert (r, v) key current new s.rule_stats known same))
            | inr changed ↦ rw changed (inr refl)
          ])
  ]
