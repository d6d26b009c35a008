-- ===== src/Session/Refinement/Contradictions.antt =====
-- The contradiction calls of ragcore/_engine/lifecycle.py, as steps of the abstract machine.
use intelligent_rag_framewor.Prelude.{
  ℤ, pos, ◌+ℤ◌, ◌≡◌, ◌⊎◌, inl, inr, true, [], arith, int_eq, elem, elem-nil, adjoin,
}
use intelligent_rag_framewor.Prelude.Dict.{
  contains, get_or, setdefault_known, get_or-setdefault, insert-setdefault, get_or_unknown,
}
use intelligent_rag_framewor.Floats.{Floats}
use intelligent_rag_framewor.Engine.State.{Engine}
use intelligent_rag_framewor.Engine.Lifecycle.{
  register_contradiction, register_contradiction_resolution,
}
use intelligent_rag_framewor.Spec.{
  Step, Steps, counted, with_contradiction, with_resolved_contradiction,
}

module _ {F : Type 0} ⦃fl : Floats F⦄ (s : Engine F) where
  abbrev revised : Engine F → Engine F
  revised t = record t { state_revision = s.state_revision +ℤ pos 1 }

  register_contradiction_outcome :
      (c e : ℤ)
      → ((register_contradiction c e s).1 ≡ s)
        ⊎ (((register_contradiction c e s).1 ≡ revised (with_contradiction s c e))
            × (contains c s.claims ≡ true)
            × (contains e s.evidences ≡ true))
  unfolding register_contradiction
  register_contradiction_outcome c e = ground (
    arith,
    setdefault_known c [] s.contradictions,
    get_or-setdefault c c [] s.contradictions,
    elem-nil e,
    get_or_unknown s.contradictions c [],
    insert-setdefault c (adjoin e (get_or s.contradictions c [])) [] s.contradictions,
  )

  pub register_contradiction-Steps : (c e : ℤ) → Steps s (register_contradiction c e s).1
  register_contradiction-Steps c e = elim (register_contradiction_outcome c e) [
    | inl same ↦ rw same Steps.here
    | inr (new, claim, evidence) ↦ rw new (counted (Step.contradict c e claim evidence))
  ]

  register_resolution_outcome :
      (c e : ℤ)
      → ((register_contradiction_resolution c e s).1 ≡ s)
        ⊎ (((register_contradiction_resolution c e s).1
              ≡ revised (with_resolved_contradiction s c e))
            × (contains c s.claims ≡ true)
            × (elem e (get_or s.contradictions c []) ≡ true))
  unfolding register_contradiction_resolution
  register_resolution_outcome c e = ground (
    arith,
    setdefault_known c [] s.resolved_contradictions,
    get_or-setdefault c c [] s.resolved_contradictions,
    elem-nil e,
    get_or_unknown s.resolved_contradictions c [],
    insert-setdefault c (adjoin e (get_or s.resolved_contradictions c [])) []
        s.resolved_contradictions,
  )

  pub register_resolution-Steps : (c e : ℤ) → Steps s (register_contradiction_resolution c e s).1
  register_resolution-Steps c e = elim (register_resolution_outcome c e) [
    | inl same ↦ rw same Steps.here
    | inr (new, claim, known) ↦ rw new (counted (Step.settle c e claim known))
  ]
