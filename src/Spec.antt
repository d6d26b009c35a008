-- ===== src/Spec.antt =====
-- The abstract machine of `Engine` (ragcore/engine.py and the mixins of ragcore/_engine): the single
-- changes that a state can go through, each with what must hold for it. The methods are sequences of
-- such steps (`Session/Refinement.antt`), and what holds along every step holds in every session.
mod Changes
pub mod Valid
pub mod Permanence
pub mod Trail
pub mod Keyed
pub use Changes.{
  IsStatus, IsFresh, Exists, gap_key, with_entity, with_observation, with_claim, with_evidence,
  with_relation, with_ref, with_gap, with_resolution, with_contradiction,
  with_resolved_contradiction, event_of, with_status, active,
}
use intelligent_rag_framewor.Prelude.{
  ℤ, pos, ◌+ℤ◌, String, Bool, true, false, ◌≡◌, ◌⊎◌, Option, none, some, List, [], ◌∷◌, ◌++◌,
  int_eq, string_eq, pair_eq, quad_eq, adjoin, elem, difference, is_empty, ◌≤ℤ◌,
}
use intelligent_rag_framewor.Prelude.Dict.{lookup, contains, insert, get_or}
use intelligent_rag_framewor.Floats.{Floats, in_unit}
use intelligent_rag_framewor.Types.{
  Entity, Observation, Claim, Evidence, Relation, Gap, RuleDefinition, RuleStats,
  ClaimLifecycleEvent,
}
use intelligent_rag_framewor.Types.ClaimStatus
use intelligent_rag_framewor.Types.Kind
use intelligent_rag_framewor.Engine.State.{Engine, last_id}

module _ {F : Type 0} ⦃fl : Floats F⦄ where
  -- an active contradiction of strength 0.8 or more
  abbrev pub IsStrong : Engine F → ℤ → ℤ → Type 0
  IsStrong s c e =
      (elem e (active s c) ≡ true)
      × (x : Evidence F) × (lookup e s.evidences ≡ some x)
      × (fl.leb (fl.lit 8 10) x.strength.value ≡ true)

  -- The edges between the statuses of a claim, what each wants, and the label that is recorded.
  pub data Edge (s : Engine F) (c : ℤ) : ℤ → ℤ → String → Type 0 where
    confirm :
        {a b : ℤ} {l : String}
        → a ≡ ClaimStatus.candidate
        → b ≡ ClaimStatus.confirmed
        → l ≡ "confirm_if_ready"
        → is_empty (get_or s.claim_gap_refs c []) ≡ false
        → ((g : ℤ)
            → elem g (get_or s.claim_gap_refs c []) ≡ true
            → contains g s.gap_resolutions ≡ true)
        → Edge s c a b l
    refute :
        {a b : ℤ} {l : String}
        → a ≡ ClaimStatus.candidate
        → b ≡ ClaimStatus.refuted
        → l ≡ "refute_if_ready"
        → is_empty (get_or s.contradictions c []) ≡ false
        → Edge s c a b l
    dispute :
        {a b : ℤ} {l : String}
        → a ≡ ClaimStatus.confirmed
        → b ≡ ClaimStatus.disputed
        → l ≡ "dispute_if_ready"
        → is_empty (get_or s.contradictions c []) ≡ false
        → Edge s c a b l
    resolve_disputed :
        {a b : ℤ} {l : String}
        → a ≡ ClaimStatus.disputed
        → b ≡ ClaimStatus.confirmed
        → l ≡ "resolve_disputed_if_ready"
        → is_empty (active s c) ≡ true
        → Edge s c a b l
    refute_disputed :
        {a b : ℤ} {l : String} (e : ℤ)
        → a ≡ ClaimStatus.disputed
        → b ≡ ClaimStatus.refuted
        → l ≡ "refute_disputed_if_ready"
        → IsStrong s c e
        → Edge s c a b l
    refute_by_freshness :
        {a b : ℤ} {l : String} (e : ℤ)
        → a ≡ ClaimStatus.disputed
        → b ≡ ClaimStatus.refuted
        → l ≡ "refute_disputed_by_freshness_if_ready"
        → IsStrong s c e
        → ((e' : ℤ) → elem e' (active s c) ≡ true → e' ≤ℤ e)
        → Edge s c a b l

  pub data Step (s : Engine F) : Engine F → Type 0 where
    add_entity : (x : Entity) → IsFresh "entity" x.id s → Step s (with_entity s x)
    add_observation :
        (x : Observation)
        → IsFresh "observation" x.id s
        → contains x.entity_id s.entities ≡ true
        → Step s (with_observation s x)
    add_claim :
        (x : Claim F)
        → IsFresh "claim" x.id s
        → contains x.subject_id s.entities ≡ true
        → IsStatus x.status
        → in_unit x.base_confidence.value ≡ true
        → Step s (with_claim s x)
    add_evidence :
        (x : Evidence F)
        → IsFresh "evidence" x.id s
        → contains x.claim_id s.claims ≡ true
        → in_unit x.strength.value ≡ true
        → Step s (with_evidence s x)
    add_relation :
        (x : Relation)
        → IsFresh "relation" x.id s
        → Exists x.from_kind x.from_id s
        → Exists x.to_kind x.to_id s
        → Step s (with_relation s x)
    add_gap :
        (claim : Claim F) (g : Gap F)
        → IsFresh "gap" g.id s
        → lookup g.claim_id s.claims ≡ some claim
        → lookup (gap_key claim g) s.gap_dedup_index ≡ none
        → in_unit g.severity.value ≡ true
        → Step s (with_gap s claim g)
    refer :
        (c : ℤ) (claim : Claim F) (g r t e : ℤ)
        → lookup c s.claims ≡ some claim
        → lookup (claim.subject_id, r, t, e) s.gap_dedup_index ≡ some g
        → Step s (with_ref s c g)
    resolve :
        (e : ℤ) (x : Evidence F) (g : ℤ) (gap : Gap F)
        → lookup e s.evidences ≡ some x
        → lookup g s.gaps ≡ some gap
        → gap.required_evidence_type ≡ x.type
        → elem g (get_or s.claim_gap_refs x.claim_id []) ≡ true
        → lookup g s.gap_resolutions ≡ none
        → Step s (with_resolution s g e)
    contradict :
        (c e : ℤ)
        → contains c s.claims ≡ true
        → contains e s.evidences ≡ true
        → Step s (with_contradiction s c e)
    settle :
        (c e : ℤ)
        → contains c s.claims ≡ true
        → elem e (get_or s.contradictions c []) ≡ true
        → Step s (with_resolved_contradiction s c e)
    transit :
        (c : ℤ) (claim : Claim F) (to : ℤ) (label : String)
        → lookup c s.claims ≡ some claim
        → Edge s c claim.status to label
        → Step s (with_status s c claim to label)
    register_rule :
        (d : RuleDefinition F) (x : RuleStats F)
        → lookup (d.id, d.version) s.rule_definitions ≡ none
        → Step s (record s {
          rule_definitions = insert (d.id, d.version) d s.rule_definitions;
          rule_stats = insert (d.id, d.version) x s.rule_stats;
        })
    update_stats :
        (r v : ℤ) (x : RuleStats F)
        → contains (r, v) s.rule_stats ≡ true
        → Step s (record s { rule_stats = insert (r, v) x s.rule_stats })
    set_hints : (ns : List ℤ) → Step s (record s { hint_evidence_types = ns })
    advance : Step s (record s { state_revision = s.state_revision +ℤ pos 1 })

  pub data Steps (s : Engine F) : Engine F → Type 0 where
    here : Steps s s
    next : {t u : Engine F} → Steps s t → Step t u → Steps s u

  pub Steps-trans : {s t u : Engine F} → Steps s t → Steps t u → Steps s u
  Steps-trans p here = p
  Steps-trans p (next q st) = next (Steps-trans p q) st

  pub one_step : {s t : Engine F} → Step s t → Steps s t
  one_step st = next here st

  -- One step, and the revision counted.
  pub counted :
      {s t : Engine F}
      → Step s t
      → Steps s (record t { state_revision = t.state_revision +ℤ pos 1 })
  counted st = next (next here st) advance
