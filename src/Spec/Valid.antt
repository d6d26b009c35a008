-- ===== src/Spec/Valid.antt =====
-- What every state of a session satisfies: the ids are those of the allocator, every reference finds
-- its record, and scores and statuses are in range.
pub mod Parts
pub mod Start
mod Existence
pub mod Preserved
use intelligent_rag_framewor.Prelude.{
  ℤ, pos, ◌+ℤ◌, ◌≤ℤ◌, String, Bool, true, ◌≡◌, ◌⊎◌, Option, none, some, List, [], HasEq, int_eq,
  string_eq, pair_eq, quad_eq, elem,
}
use intelligent_rag_framewor.Prelude.Dict.{Dict, lookup, contains, get_or}
use intelligent_rag_framewor.Floats.{Floats, in_unit}
use intelligent_rag_framewor.Types.{Entity, Claim, Evidence, Gap, Relation}
use intelligent_rag_framewor.Engine.State.{Engine, last_id}
use intelligent_rag_framewor.Spec.{IsStatus, Exists, gap_key}

-- Every record is stored at its own id, which the allocator has given: from 1 up to the last one.
abbrev pub Stored : {V : Type 0} → (V → ℤ) → ℤ → Dict ℤ V → Type 0
Stored {V} id last d =
    (k : ℤ) (x : V) → lookup k d ≡ some x → (id x ≡ k) × (pos 1 ≤ℤ k) × (k ≤ℤ last)

-- Every entry of the dict satisfies `P`.
abbrev pub Each : {K V : Type 0} ⦃e : HasEq K⦄ → (K → V → Type 0) → Dict K V → Type 0
Each {K} {V} P d = (k : K) (x : V) → lookup k d ≡ some x → P k x

-- Every member of the set at a key satisfies `P`.
abbrev pub EachIn : (ℤ → ℤ → Type 0) → Dict ℤ (List ℤ) → Type 0
EachIn P d = (k i : ℤ) → elem i (get_or d k []) ≡ true → P k i

-- Every key that the allocator has counted for is counted from zero up.
abbrev pub Counts : Dict String ℤ → Type 0
Counts d = (kind : String) (n : ℤ) → lookup kind d ≡ some n → pos 0 ≤ℤ n

module _ {F : Type 0} ⦃fl : Floats F⦄ where
  pub record IsValid (s : Engine F) : Type 0 where
    pub counts : Counts s.next_id
    pub entity_ids : Stored (λ (x : Entity). x.id) (last_id "entity" s) s.entities
    pub observation_ids : Stored (λ x. x.id) (last_id "observation" s) s.observations
    pub claim_ids : Stored (λ (x : Claim F). x.id) (last_id "claim" s) s.claims
    pub evidence_ids : Stored (λ (x : Evidence F). x.id) (last_id "evidence" s) s.evidences
    pub relation_ids : Stored (λ (x : Relation). x.id) (last_id "relation" s) s.relations
    pub gap_ids : Stored (λ (x : Gap F). x.id) (last_id "gap" s) s.gaps
    pub observed : Each (λ k x. contains x.entity_id s.entities ≡ true) s.observations
    pub subjects : Each (λ k x. contains x.subject_id s.entities ≡ true) s.claims
    pub statuses : Each (λ k x. IsStatus x.status) s.claims
    pub confidences : Each (λ k x. in_unit x.base_confidence.value ≡ true) s.claims
    pub supported : Each (λ k x. contains x.claim_id s.claims ≡ true) s.evidences
    pub strengths : Each (λ k x. in_unit x.strength.value ≡ true) s.evidences
    pub from_ends : Each (λ k x. Exists x.from_kind x.from_id s) s.relations
    pub to_ends : Each (λ k x. Exists x.to_kind x.to_id s) s.relations
    pub gap_claims : Each (λ k x. contains x.claim_id s.claims ≡ true) s.gaps
    pub severities : Each (λ k x. in_unit x.severity.value ≡ true) s.gaps
    pub indexed : Each (λ k g. contains g s.gaps ≡ true) s.gap_dedup_index
    pub referring : Each (λ c gs. contains c s.claims ≡ true) s.claim_gap_refs
    pub referred : EachIn (λ c g. contains g s.gaps ≡ true) s.claim_gap_refs
    pub resolved_gaps : Each (λ g e. contains g s.gaps ≡ true) s.gap_resolutions
    pub resolving : Each (λ g e. contains e s.evidences ≡ true) s.gap_resolutions
    pub contradicted : Each (λ c es. contains c s.claims ≡ true) s.contradictions
    pub contradicting : EachIn (λ c e. contains e s.evidences ≡ true) s.contradictions
    pub settled :
        EachIn (λ c e. elem e (get_or s.contradictions c []) ≡ true) s.resolved_contradictions
