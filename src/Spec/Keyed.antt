-- ===== src/Spec/Keyed.antt =====
-- The dicts of `Engine` (ragcore/engine.py and the mixins) hold every key once, and a settled
-- contradiction stands under a claim that has contradictions.
use intelligent_rag_framewor.Prelude.{
  ℤ, String, true, ◌≡◌, some, List, [], int_eq, string_eq, pair_eq, quad_eq, elem, elem-nil, arith,
  adjoin, ◌∷◌, ◌++◌, Option-cases, inl, inr,
}
use intelligent_rag_framewor.Prelude.Dict.{
  Dict, lookup, contains, get_or, get_or_unknown, contains_mono,
}
use intelligent_rag_framewor.Prelude.Items.{Unique, Unique-insert}
use intelligent_rag_framewor.Floats.{Floats}
use intelligent_rag_framewor.Engine.State.{Engine, init}
use intelligent_rag_framewor.Spec.{Step, Steps, gap_key, event_of}
use intelligent_rag_framewor.Spec.Valid.{Each}
use intelligent_rag_framewor.Spec.Valid.Parts.{Each-insert}

module _ {F : Type 0} where
  pub record IsKeyed (s : Engine F) : Type 0 where
    pub next_id : Unique s.next_id
    pub entities : Unique s.entities
    pub observations : Unique s.observations
    pub claims : Unique s.claims
    pub evidences : Unique s.evidences
    pub relations : Unique s.relations
    pub gaps : Unique s.gaps
    pub rule_definitions : Unique s.rule_definitions
    pub rule_stats : Unique s.rule_stats
    pub gap_dedup_index : Unique s.gap_dedup_index
    pub claim_gap_refs : Unique s.claim_gap_refs
    pub gap_resolutions : Unique s.gap_resolutions
    pub contradictions : Unique s.contradictions
    pub resolved_contradictions : Unique s.resolved_contradictions
    pub claim_lifecycle_events : Unique s.claim_lifecycle_events
    pub settled_claims : Each (λ c _. contains c s.contradictions ≡ true) s.resolved_contradictions

  pub init-IsKeyed : (token : String) → IsKeyed (init token)
  unfolding init lookup
  init-IsKeyed token = record {
    next_id = tt;
    entities = tt;
    observations = tt;
    claims = tt;
    evidences = tt;
    relations = tt;
    gaps = tt;
    rule_definitions = tt;
    rule_stats = tt;
    gap_dedup_index = tt;
    claim_gap_refs = tt;
    gap_resolutions = tt;
    contradictions = tt;
    resolved_contradictions = tt;
    claim_lifecycle_events = tt;
    settled_claims = λ k x h. ground arith;
  }

contains_registered :
    (c e : ℤ) (d : Dict ℤ (List ℤ)) → elem e (get_or d c []) ≡ true → contains c d ≡ true
contains_registered c e d h = elim (Option-cases (lookup c d)) [
  | inl absent ↦ ground (arith, get_or_unknown d c [] absent, elem-nil e)
  | inr (es, found) ↦ ground arith
]

module _ {F : Type 0} ⦃fl : Floats F⦄ where
  Step-IsKeyed : {s t : Engine F} → Step s t → IsKeyed s → IsKeyed t
  Step-IsKeyed {s} (Step.add_entity x _) h =
      assumption (
        Unique-insert "entity" x.id s.next_id h.next_id,
        Unique-insert x.id x s.entities h.entities,
      )
  Step-IsKeyed {s} (Step.add_observation x _ _) h = assumption (
    Unique-insert "observation" x.id s.next_id h.next_id,
    Unique-insert x.id x s.observations h.observations,
  )
  Step-IsKeyed {s} (Step.add_claim x _ _ _ _) h =
      assumption
        (Unique-insert "claim" x.id s.next_id h.next_id, Unique-insert x.id x s.claims h.claims)
  Step-IsKeyed {s} (Step.add_evidence x _ _ _) h = assumption (
    Unique-insert "evidence" x.id s.next_id h.next_id,
    Unique-insert x.id x s.evidences h.evidences,
  )
  Step-IsKeyed {s} (Step.add_relation x _ _ _) h = assumption (
    Unique-insert "relation" x.id s.next_id h.next_id,
    Unique-insert x.id x s.relations h.relations,
  )
  Step-IsKeyed {s} (Step.add_gap claim g _ _ _ _) h = assumption (
    Unique-insert "gap" g.id s.next_id h.next_id,
    Unique-insert g.id g s.gaps h.gaps,
    Unique-insert (gap_key claim g) g.id s.gap_dedup_index h.gap_dedup_index,
    Unique-insert g.claim_id (adjoin g.id (get_or s.claim_gap_refs g.claim_id [])) s.claim_gap_refs
        h.claim_gap_refs,
  )
  Step-IsKeyed {s} (Step.refer c claim g _ _ _ _ _) h =
      assumption (
        Unique-insert c (adjoin g (get_or s.claim_gap_refs c [])) s.claim_gap_refs h.claim_gap_refs)
  Step-IsKeyed {s} (Step.resolve e _ g _ _ _ _ _ _) h =
      assumption (Unique-insert g e s.gap_resolutions h.gap_resolutions)
  Step-IsKeyed {s} (Step.contradict c e _ _) h =
      let es = adjoin e (get_or s.contradictions c []) in
      assumption (
        Unique-insert c es s.contradictions h.contradictions,
        λ (k : ℤ) (x : List ℤ) (found : lookup k s.resolved_contradictions ≡ some x).
            contains_mono c k es s.contradictions (h.settled_claims k x found),
      )
  Step-IsKeyed {s} (Step.settle c e _ registered) h =
      let es = adjoin e (get_or s.resolved_contradictions c []) in
      assumption (
        Unique-insert c es s.resolved_contradictions h.resolved_contradictions,
        Each-insert (λ k _. contains k s.contradictions ≡ true) c es s.resolved_contradictions
            h.settled_claims (contains_registered c e s.contradictions registered),
      )
  Step-IsKeyed {s} (Step.transit c claim to label _ _) h = assumption (
    Unique-insert c (record claim { status = to }) s.claims h.claims,
    Unique-insert c
        (get_or s.claim_lifecycle_events c [] ++ event_of s c claim.status to label ∷ [])
        s.claim_lifecycle_events h.claim_lifecycle_events,
  )
  Step-IsKeyed {s} (Step.register_rule d x _) h = assumption (
    Unique-insert (d.id, d.version) d s.rule_definitions h.rule_definitions,
    Unique-insert (d.id, d.version) x s.rule_stats h.rule_stats,
  )
  Step-IsKeyed {s} (Step.update_stats r v x _) h =
      assumption (Unique-insert (r, v) x s.rule_stats h.rule_stats)
  Step-IsKeyed {s} (Step.set_hints ns) h = assumption
  Step-IsKeyed {s} Step.advance h = assumption

  -- What holds at the start of a session holds after all of it.
  pub Steps-IsKeyed : {s t : Engine F} → Steps s t → IsKeyed s → IsKeyed t
  Steps-IsKeyed Steps.here h = h
  Steps-IsKeyed (Steps.next p st) h = Step-IsKeyed st (Steps-IsKeyed p h)
