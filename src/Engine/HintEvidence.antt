-- ===== src/Engine/HintEvidence.antt =====
-- ragcore/_engine/hint_evidence.py: the evidence types that the caller registers as hints.
use intelligent_rag_framewor.Prelude.{
  ℤ, List, [], ◌∷◌, none, some, Result, ok, raise, type_error, int_eq, if◌then◌else◌, adjoin,
  difference, is_empty, length, eqb,
}
use intelligent_rag_framewor.Value.{Value, elements}
use intelligent_rag_framewor.Engine.State.{
  Call, ◌>>=◌, ◌>>◌, pure, lift, gets, modify, advance_state_revision,
}

-- `self._hint_evidence_types.update(validated)`
unfoldable pub update_set : List ℤ → List ℤ → List ℤ
update_set hints [] = hints
update_set hints (n ∷ validated) = update_set (adjoin n hints) validated

module _ {F : Type 0} where
  -- the loop of `_validate_hint_evidence_type_values`; `bool` is no int here
  unfoldable pub validated_ints : List (Value F) → List ℤ → Result (List ℤ)
  validated_ints [] validated = ok validated
  validated_ints (Value.int n ∷ vs) validated = validated_ints vs (adjoin n validated)
  validated_ints (v ∷ vs) validated = raise type_error

  unfoldable pub validate_hint_evidence_type_values : Value F → Result (List ℤ)
  unfolding validated_ints elements
  validate_hint_evidence_type_values (Value.str _) = raise type_error
  validate_hint_evidence_type_values types = elim (elements types) [
    | none ↦ raise type_error
    | some vs ↦ validated_ints vs []
  ]

  -- a change of the set, which advances the revision if it changes the size
  unfoldable pub change_hints : List ℤ → Call F (Unit {0})
  unfolding advance_state_revision
  change_hints changed = do
    before ← gets (λ s. s.hint_evidence_types)
    modify (λ s. record s { hint_evidence_types = changed })
    if eqb (length changed) (length before) then pure tt else advance_state_revision

  unfoldable pub register_hint_evidence_types : Value F → Call F (Unit {0})
  unfolding change_hints
  register_hint_evidence_types types = do
    validated ← lift (validate_hint_evidence_type_values types)
    hints ← gets (λ s. s.hint_evidence_types)
    change_hints (update_set hints validated)

  unfoldable pub unregister_hint_evidence_types : Value F → Call F (Unit {0})
  unfolding change_hints
  unregister_hint_evidence_types types = do
    validated ← lift (validate_hint_evidence_type_values types)
    hints ← gets (λ s. s.hint_evidence_types)
    change_hints (difference hints validated)

  unfoldable pub clear_hint_evidence_types : Call F (Unit {0})
  unfolding advance_state_revision
  clear_hint_evidence_types = do
    hints ← gets (λ s. s.hint_evidence_types)
    if is_empty hints
        then pure tt
        else do modify (λ s. record s { hint_evidence_types = [] }); advance_state_revision
