-- ===== src/Spec/Permanence.antt =====
-- What no step of the abstract machine takes back: records but for the status of a claim, the
-- resolutions of gaps, the dedup index, and the sets of contradictions.
use intelligent_rag_framewor.Prelude.{
  ℤ, pos, ◌+ℤ◌, String, true, ◌≡◌, refl, ◌⊎◌, inl, inr, HasEq, none, some, List, [], arith, elem,
  adjoin, int_eq, string_eq, pair_eq, quad_eq, int_laws, ap, pos_part, neg_part, Option-cases,
  Bool-cases, elem-adjoin, eqb_ℤ, eqb_ℤ_iff,
}
use intelligent_rag_framewor.Prelude.Dict.{
  Dict, lookup, insert, get_or, lookup-insert, get_or-insert,
}
use intelligent_rag_framewor.Floats.{Floats}
use intelligent_rag_framewor.Types.{Entity, Observation, Claim, Evidence, Relation, Gap}
use intelligent_rag_framewor.Types.ClaimStatus
use intelligent_rag_framewor.Engine.State.{Engine, last_id}
use intelligent_rag_framewor.Spec.{Step, Steps, Edge, gap_key}
use intelligent_rag_framewor.Spec.Valid.{Stored, IsValid}
use intelligent_rag_framewor.Spec.Valid.Preserved.{Steps-IsValid}

-- Every entry stays as it is.
abbrev pub Extends : {K V : Type 0} ⦃e : HasEq K⦄ → Dict K V → Dict K V → Type 0
Extends {K} {V} d d' = (k : K) (x : V) → lookup k d ≡ some x → lookup k d' ≡ some x

-- Every set keeps its members.
abbrev pub Grows : Dict ℤ (List ℤ) → Dict ℤ (List ℤ) → Type 0
Grows d d' = (c i : ℤ) → elem i (get_or d c []) ≡ true → elem i (get_or d' c []) ≡ true

-- The second status can be reached from the first.
abbrev pub Leads : ℤ → ℤ → Type 0
Leads a b =
    (a ≡ b)
    ⊎ (((a ≡ ClaimStatus.candidate)
          × ((b ≡ ClaimStatus.confirmed)
              ⊎ ((b ≡ ClaimStatus.disputed) ⊎ (b ≡ ClaimStatus.refuted))))
        ⊎ (((a ≡ ClaimStatus.confirmed) ⊎ (a ≡ ClaimStatus.disputed))
            × ((b ≡ ClaimStatus.confirmed)
                ⊎ ((b ≡ ClaimStatus.disputed) ⊎ (b ≡ ClaimStatus.refuted)))))

module _ {F : Type 0} where
  -- The claim stays but for its status, which moves along the edges.
  abbrev pub Evolves : Dict ℤ (Claim F) → Dict ℤ (Claim F) → Type 0
  Evolves d d' =
      (c : ℤ) (x : Claim F)
      → lookup c d ≡ some x
      → (status : ℤ) × (lookup c d' ≡ some (record x { status = status })) × Leads x.status status

  pub record Keeps (s t : Engine F) : Type 0 where
    pub entities : Extends s.entities t.entities
    pub observations : Extends s.observations t.observations
    pub evidences : Extends s.evidences t.evidences
    pub relations : Extends s.relations t.relations
    pub gaps : Extends s.gaps t.gaps
    pub rule_definitions : Extends s.rule_definitions t.rule_definitions
    pub gap_dedup_index : Extends s.gap_dedup_index t.gap_dedup_index
    pub gap_resolutions : Extends s.gap_resolutions t.gap_resolutions
    pub claim_gap_refs : Grows s.claim_gap_refs t.claim_gap_refs
    pub contradictions : Grows s.contradictions t.contradictions
    pub resolved_contradictions : Grows s.resolved_contradictions t.resolved_contradictions
    pub claims : Evolves s.claims t.claims

module _ {K V : Type 0} ⦃e : HasEq K⦄ where
  Extends-insert : (k : K) (v : V) (d : Dict K V) → lookup k d ≡ none → Extends d (insert k v d)
  Extends-insert k v d free j x found = ground (arith, lookup-insert k j v d, e.test_iff k j)

Grows-insert : (c i : ℤ) (d : Dict ℤ (List ℤ)) → Grows d (insert c (adjoin i (get_or d c [])) d)
Grows-insert c i d k j found = ground (
  arith,
  get_or-insert c k (adjoin i (get_or d c [])) [] d,
  elem-adjoin j i (get_or d c []),
  eqb_ℤ_iff c k,
)

pub fresh_lem :
    {V : Type 0} (id : V → ℤ) (last k : ℤ) (d : Dict ℤ V)
    → Stored id last d
    → k ≡ last +ℤ pos 1
    → lookup k d ≡ none
fresh_lem id last k d stored fresh = elim (Option-cases (lookup k d)) [
  | inl free ↦ free
  | inr (x, found) ↦
      let (same, low, high) = stored k x found in
      absurd (omega (int_laws, high, ap pos_part fresh, ap neg_part fresh))
]

module _ {F : Type 0} where
  Evolves-refl : (d : Dict ℤ (Claim F)) → Evolves d d
  Evolves-refl d c x found = (x.status, found, inl refl)

  Evolves-new :
      (k : ℤ) (v : Claim F) (d : Dict ℤ (Claim F)) → lookup k d ≡ none → Evolves d (insert k v d)
  Evolves-new k v d free c x found = (x.status, Extends-insert k v d free c x found, inl refl)

  Evolves-transit :
      (k : ℤ) (v : Claim F) (to : ℤ) (d : Dict ℤ (Claim F))
      → lookup k d ≡ some v
      → Leads v.status to
      → Evolves d (insert k (record v { status = to }) d)
  Evolves-transit k v to d known leads c x found = elim (Bool-cases (eqb_ℤ k c)) [
    | inl here ↦ (
      to,
      ground (arith, lookup-insert k c (record v { status = to }) d, eqb_ℤ_iff k c),
      ground (arith, eqb_ℤ_iff k c),
    )
    | inr other ↦
        (x.status, ground (arith, lookup-insert k c (record v { status = to }) d), inl refl)
  ]

  Evolves-trans : (d e f : Dict ℤ (Claim F)) → Evolves d e → Evolves e f → Evolves d f
  Evolves-trans d e f p q c x found =
      let (mid, there, leads) = p c x found in
      let (last, end, leads') = q c (record x { status = mid }) there in (last, end, ground arith)

module _ {F : Type 0} ⦃fl : Floats F⦄ where
  Keeps-refl : (s : Engine F) → Keeps s s
  Keeps-refl s = record {
    entities = λ k x h. h;
    observations = λ k x h. h;
    evidences = λ k x h. h;
    relations = λ k x h. h;
    gaps = λ k x h. h;
    rule_definitions = λ k x h. h;
    gap_dedup_index = λ k x h. h;
    gap_resolutions = λ k x h. h;
    claim_gap_refs = λ c i h. h;
    contradictions = λ c i h. h;
    resolved_contradictions = λ c i h. h;
    claims = Evolves-refl s.claims;
  }

  Keeps-trans : {s t u : Engine F} → Keeps s t → Keeps t u → Keeps s u
  Keeps-trans {s} {t} {u} p q = record {
    entities = λ k x h. q.entities k x (p.entities k x h);
    observations = λ k x h. q.observations k x (p.observations k x h);
    evidences = λ k x h. q.evidences k x (p.evidences k x h);
    relations = λ k x h. q.relations k x (p.relations k x h);
    gaps = λ k x h. q.gaps k x (p.gaps k x h);
    rule_definitions = λ k x h. q.rule_definitions k x (p.rule_definitions k x h);
    gap_dedup_index = λ k x h. q.gap_dedup_index k x (p.gap_dedup_index k x h);
    gap_resolutions = λ k x h. q.gap_resolutions k x (p.gap_resolutions k x h);
    claim_gap_refs = λ c i h. q.claim_gap_refs c i (p.claim_gap_refs c i h);
    contradictions = λ c i h. q.contradictions c i (p.contradictions c i h);
    resolved_contradictions =
        λ c i h. q.resolved_contradictions c i (p.resolved_contradictions c i h);
    claims = Evolves-trans s.claims t.claims u.claims p.claims q.claims;
  }

  Edge-Leads : {s : Engine F} {c a b : ℤ} {l : String} → Edge s c a b l → Leads a b
  Edge-Leads (Edge.confirm a b _ _ _) = inr (inl (a, inl b))
  Edge-Leads (Edge.refute a b _ _) = inr (inl (a, inr (inr b)))
  Edge-Leads (Edge.dispute a b _ _) = inr (inr (inl a, inr (inl b)))
  Edge-Leads (Edge.resolve_disputed a b _ _) = inr (inr (inr a, inl b))
  Edge-Leads (Edge.refute_disputed _ a b _ _) = inr (inr (inr a, inr (inr b)))
  Edge-Leads (Edge.refute_by_freshness _ a b _ _ _) = inr (inr (inr a, inr (inr b)))

  step_Keeps : {s t : Engine F} → Step s t → IsValid s → Keeps s s → Keeps s t
  step_Keeps {s} (Step.add_entity x fresh) v r = assumption (
      Extends-insert x.id x s.entities
        (fresh_lem (λ (y : Entity). y.id) (last_id "entity" s) x.id s.entities v.entity_ids fresh))
  step_Keeps {s} (Step.add_observation x fresh _) v r = assumption (
      Extends-insert x.id x s.observations (
        fresh_lem (λ (y : Observation). y.id) (last_id "observation" s) x.id s.observations
          v.observation_ids fresh))
  step_Keeps {s} (Step.add_claim x fresh _ _ _) v r = assumption (
      Evolves-new x.id x s.claims
        (fresh_lem (λ (y : Claim F). y.id) (last_id "claim" s) x.id s.claims v.claim_ids fresh))
  step_Keeps {s} (Step.add_evidence x fresh _ _) v r = assumption (
      Extends-insert x.id x s.evidences (
        fresh_lem (λ (y : Evidence F). y.id) (last_id "evidence" s) x.id s.evidences v.evidence_ids
          fresh))
  step_Keeps {s} (Step.add_relation x fresh _ _) v r = assumption (
      Extends-insert x.id x s.relations (
        fresh_lem (λ (y : Relation). y.id) (last_id "relation" s) x.id s.relations v.relation_ids
          fresh))
  step_Keeps {s} (Step.add_gap claim g fresh known miss _) v r = assumption (
    Extends-insert g.id g s.gaps
        (fresh_lem (λ (y : Gap F). y.id) (last_id "gap" s) g.id s.gaps v.gap_ids fresh),
    Extends-insert (gap_key claim g) g.id s.gap_dedup_index miss,
    Grows-insert g.claim_id g.id s.claim_gap_refs,
  )
  step_Keeps {s} (Step.refer c claim g _ _ _ _ _) v r =
      assumption (Grows-insert c g s.claim_gap_refs)
  step_Keeps {s} (Step.resolve e x g gap _ _ _ _ free) v r =
      assumption (Extends-insert g e s.gap_resolutions free)
  step_Keeps {s} (Step.contradict c e _ _) v r = assumption (Grows-insert c e s.contradictions)
  step_Keeps {s} (Step.settle c e _ _) v r = assumption (Grows-insert c e s.resolved_contradictions)
  step_Keeps {s} (Step.transit c claim to label known edge) v r =
      assumption (Evolves-transit c claim to s.claims known (Edge-Leads edge))
  step_Keeps {s} (Step.register_rule d x free) v r =
      assumption (Extends-insert (d.id, d.version) d s.rule_definitions free)
  step_Keeps (Step.update_stats _ _ _ _) v r = assumption
  step_Keeps (Step.set_hints _) v r = assumption
  step_Keeps Step.advance v r = assumption

  pub Steps-Keeps : {s t : Engine F} → Steps s t → IsValid s → Keeps s t
  Steps-Keeps {s} Steps.here v = Keeps-refl s
  Steps-Keeps {s} (Steps.next {t} p st) v =
      Keeps-trans (Steps-Keeps p v) (step_Keeps st (Steps-IsValid p v) (Keeps-refl t))
