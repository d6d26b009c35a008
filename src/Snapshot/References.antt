-- ===== src/Snapshot/References.antt =====
-- The references between the stores of an engine (ragcore/_engine/snapshot.py restores them).
use intelligent_rag_framewor.Prelude.{
  ◌≡◌, ℤ, true, List, [], arith, int_eq, string_eq, pair_eq, quad_eq, elem, elem-nil, Option-cases,
  inl, inr,
}
use intelligent_rag_framewor.Prelude.Dict.{Dict, lookup, contains, get_or_known, get_or_unknown}
use intelligent_rag_framewor.Spec.Valid.{Each, EachIn}
use intelligent_rag_framewor.Snapshot.Encode.{DecodedEngineState}

module _ {F : Type 0} where
  -- Claims, evidences and gaps are stored at their own ids, and the references find their records.
  pub record HasReferences (t : DecodedEngineState F) : Type 0 where
    pub claim_ids : Each (λ k x. x.id ≡ k) t.claims
    pub evidence_ids : Each (λ k x. x.id ≡ k) t.evidences
    pub gap_ids : Each (λ k x. x.id ≡ k) t.gaps
    pub supported : Each (λ k x. contains x.claim_id t.claims ≡ true) t.evidences
    pub contradicted : Each (λ c _. contains c t.claims ≡ true) t.contradictions
    pub contradicting : EachIn (λ _ e. contains e t.evidences ≡ true) t.contradictions
    pub referring : Each (λ c _. contains c t.claims ≡ true) t.claim_gap_refs
    pub referred : EachIn (λ _ g. contains g t.gaps ≡ true) t.claim_gap_refs
    pub resolved_gaps : Each (λ g _. contains g t.gaps ≡ true) t.gap_resolutions
    pub resolving : Each (λ _ e. contains e t.evidences ≡ true) t.gap_resolutions
    pub indexed : Each (λ _ g. contains g t.gaps ≡ true) t.gap_dedup_index

pub Each-EachIn :
    (P : ℤ → Type 0) (d : Dict ℤ (List ℤ))
    → Each (λ k ns. (i : ℤ) → elem i ns ≡ true → P i) d
    → EachIn (λ _ i. P i) d
Each-EachIn P d h k i known = elim (Option-cases (lookup k d)) [
  | inl missing ↦ absurd (ground (arith, get_or_unknown d k [] missing, elem-nil i))
  | inr (ns, found) ↦ h k ns found i (ground (arith, get_or_known d k [] ns found))
]
