-- ===== src/Snapshot/Resumed.antt =====
-- Sessions that go on from a restored snapshot (ragcore/_engine/snapshot.py).
use intelligent_rag_framewor.Prelude.{
  ◌≡◌, refl, sym, ◌∙◌, ℤ, String, true, ok, List, [], ◌∷◌, map, arith, HasEq, int_eq, string_eq,
  pair_eq, quad_eq, elem, inl, inr, Option-cases,
}
use intelligent_rag_framewor.Prelude.Dict.{Dict, lookup, contains, get_or}
use intelligent_rag_framewor.Prelude.Items.{
  Unique, Unique-sorted_items, sorted_items, contains-sorted_items, int_order, string_order,
  pair_order, quad_order,
}
use intelligent_rag_framewor.Floats.{Floats}
use intelligent_rag_framewor.Value.Comparison.{Numbers}
use intelligent_rag_framewor.Engine.State.{Engine, init, last_id}
use intelligent_rag_framewor.Session.{Op, run}
use intelligent_rag_framewor.Session.Refinement.{run-Steps, run-IsValid}
use intelligent_rag_framewor.Spec.{Exists}
use intelligent_rag_framewor.Spec.Valid.{IsValid, Each, EachIn, Stored}
use intelligent_rag_framewor.Spec.Valid.Preserved.{Steps-IsValid}
use intelligent_rag_framewor.Spec.Keyed.{IsKeyed, Steps-IsKeyed}
use intelligent_rag_framewor.Snapshot.{to_snapshot, from_snapshot}
use intelligent_rag_framewor.Snapshot.Canonical.{
  canonical, sorted_buckets, sorted_set, SameStores, RulesAreUnit,
}
use intelligent_rag_framewor.Snapshot.RoundTrip.{restore_canonical, canonical-SameStores}
use intelligent_rag_framewor.Snapshot.Sessions.{run-IsKeyed}

contains_along :
    {K V : Type 0} ⦃e : HasEq K⦄ (d r : Dict K V) (k : K)
    → ((j : K) → lookup j r ≡ lookup j d)
    → contains k d ≡ true
    → contains k r ≡ true
contains_along d r k same h = ground (arith, same k)

-- what holds of the keys of a dict of sets
keys_along :
    (P : ℤ → Type 0) (d r : Dict ℤ (List ℤ))
    → ((c : ℤ) → contains c r ≡ contains c d)
    → Each (λ c _. P c) d
    → Each (λ c _. P c) r
keys_along P d r reads h k x found = elim (Option-cases (lookup k d)) [
  | inl absent ↦ absurd (ground (arith, reads k))
  | inr (y, there) ↦ h k y there
]

contains-mapped_sets :
    (k : ℤ) (d : Dict ℤ (List ℤ)) → contains k (map (λ p. (p.0, sorted_set p.1)) d) ≡ contains k d
unfolding lookup
contains-mapped_sets k [] = refl
contains-mapped_sets k ((j, ns) ∷ d) = ground (arith, contains-mapped_sets k d)

contains-sorted_buckets :
    (k : ℤ) (d : Dict ℤ (List ℤ)) → Unique d → contains k (sorted_buckets d) ≡ contains k d
contains-sorted_buckets k d u =
    contains-mapped_sets k (sorted_items d) ∙ contains-sorted_items k d u

Unique-mapped_sets : (d : Dict ℤ (List ℤ)) → Unique d → Unique (map (λ p. (p.0, sorted_set p.1)) d)
Unique-mapped_sets [] u = tt
Unique-mapped_sets ((j, ns) ∷ d) (absent, u) =
    (ground (arith, contains-mapped_sets j d), Unique-mapped_sets d u)

Unique-sorted_buckets : (d : Dict ℤ (List ℤ)) → Unique d → Unique (sorted_buckets d)
Unique-sorted_buckets d u = Unique-mapped_sets (sorted_items d) (Unique-sorted_items d u)

module _ {F : Type 0} (s t : Engine F) (same : SameStores s t) where
  last_along : (kind : String) → last_id kind t ≡ last_id kind s
  unfolding get_or
  last_along kind = ground (arith, same.next_id kind)

  SameStores-Stored :
      {V : Type 0} (id : V → ℤ) (kind : String) (d r : Dict ℤ V)
      → ((k : ℤ) → lookup k r ≡ lookup k d)
      → Stored id (last_id kind s) d
      → Stored id (last_id kind t) r
  SameStores-Stored id kind d r reads h k x found =
      let (own, low, high) = h k x (sym (reads k) ∙ found) in (own, low, rw (last_along kind) high)

  SameStores-Exists : (kind id : ℤ) → Exists kind id s → Exists kind id t
  SameStores-Exists kind id h = ground (
    arith,
    same.entities id,
    same.observations id,
    same.claims id,
    same.evidences id,
    same.relations id,
    same.gaps id,
  )

  get_or-EachIn :
      (P Q : ℤ → ℤ → Type 0) (d r : Dict ℤ (List ℤ))
      → ((k i : ℤ) → elem i (get_or r k []) ≡ elem i (get_or d k []))
      → ((k i : ℤ) → P k i → Q k i)
      → EachIn P d
      → EachIn Q r
  get_or-EachIn P Q d r reads weaken h k i known = weaken k i (h k i (sym (reads k i) ∙ known))

  -- An engine in which every store reads the same is valid too.
  SameStores-IsValid :
      ⦃fl : Floats F⦄
      → ((c : ℤ) → contains c t.claim_gap_refs ≡ contains c s.claim_gap_refs)
      → ((c : ℤ) → contains c t.contradictions ≡ contains c s.contradictions)
      → IsValid s
      → IsValid t
  SameStores-IsValid refs contradicted v =
      let entity : (k : ℤ) → contains k s.entities ≡ true → contains k t.entities ≡ true =
        λ k. contains_along s.entities t.entities k same.entities in
      let claim : (k : ℤ) → contains k s.claims ≡ true → contains k t.claims ≡ true =
        λ k. contains_along s.claims t.claims k same.claims in
      let evidence : (k : ℤ) → contains k s.evidences ≡ true → contains k t.evidences ≡ true =
        λ k. contains_along s.evidences t.evidences k same.evidences in
      let gap : (k : ℤ) → contains k s.gaps ≡ true → contains k t.gaps ≡ true =
        λ k. contains_along s.gaps t.gaps k same.gaps in
      record {
        counts = λ kind n found. v.counts kind n (sym (same.next_id kind) ∙ found);
        entity_ids =
            SameStores-Stored (λ x. x.id) "entity" s.entities t.entities same.entities v.entity_ids;
        observation_ids =
            SameStores-Stored (λ x. x.id) "observation" s.observations t.observations
              same.observations v.observation_ids;
        claim_ids = SameStores-Stored (λ x. x.id) "claim" s.claims t.claims same.claims v.claim_ids;
        evidence_ids =
            SameStores-Stored (λ x. x.id) "evidence" s.evidences t.evidences same.evidences
              v.evidence_ids;
        relation_ids =
            SameStores-Stored (λ x. x.id) "relation" s.relations t.relations same.relations
              v.relation_ids;
        gap_ids = SameStores-Stored (λ x. x.id) "gap" s.gaps t.gaps same.gaps v.gap_ids;
        observed =
            λ k x found. entity x.entity_id (v.observed k x (sym (same.observations k) ∙ found));
        subjects = λ k x found. entity x.subject_id (v.subjects k x (sym (same.claims k) ∙ found));
        statuses = λ k x found. v.statuses k x (sym (same.claims k) ∙ found);
        confidences = λ k x found. v.confidences k x (sym (same.claims k) ∙ found);
        supported =
            λ k x found. claim x.claim_id (v.supported k x (sym (same.evidences k) ∙ found));
        strengths = λ k x found. v.strengths k x (sym (same.evidences k) ∙ found);
        from_ends = λ k x found.
            SameStores-Exists x.from_kind x.from_id
              (v.from_ends k x (sym (same.relations k) ∙ found));
        to_ends = λ k x found.
            SameStores-Exists x.to_kind x.to_id (v.to_ends k x (sym (same.relations k) ∙ found));
        gap_claims = λ k x found. claim x.claim_id (v.gap_claims k x (sym (same.gaps k) ∙ found));
        severities = λ k x found. v.severities k x (sym (same.gaps k) ∙ found);
        indexed = λ k g found. gap g (v.indexed k g (sym (same.gap_dedup_index k) ∙ found));
        referring = λ k gs found. claim k (
            keys_along (λ c. contains c s.claims ≡ true) s.claim_gap_refs t.claim_gap_refs refs
              v.referring k gs found);
        referred =
            get_or-EachIn (λ _ g. contains g s.gaps ≡ true) (λ _ g. contains g t.gaps ≡ true)
              s.claim_gap_refs t.claim_gap_refs same.claim_gap_refs (λ _ g. gap g) v.referred;
        resolved_gaps =
            λ g e found. gap g (v.resolved_gaps g e (sym (same.gap_resolutions g) ∙ found));
        resolving =
            λ g e found. evidence e (v.resolving g e (sym (same.gap_resolutions g) ∙ found));
        contradicted = λ k es found. claim k (
            keys_along (λ c. contains c s.claims ≡ true) s.contradictions t.contradictions
              contradicted v.contradicted k es found);
        contradicting =
            get_or-EachIn (λ _ e. contains e s.evidences ≡ true)
              (λ _ e. contains e t.evidences ≡ true) s.contradictions t.contradictions
              same.contradictions (λ _ e. evidence e) v.contradicting;
        settled =
            get_or-EachIn (λ c e. elem e (get_or s.contradictions c []) ≡ true)
              (λ c e. elem e (get_or t.contradictions c []) ≡ true) s.resolved_contradictions
              t.resolved_contradictions same.resolved_contradictions
              (λ c e known. same.contradictions c e ∙ known) v.settled;
      }

module _ {F : Type 0} (token : String) (s : Engine F) (keyed : IsKeyed s) where
  canonical-IsKeyed : IsKeyed (canonical token s)
  canonical-IsKeyed = record {
    next_id = Unique-sorted_items s.next_id keyed.next_id;
    entities = Unique-sorted_items s.entities keyed.entities;
    observations = Unique-sorted_items s.observations keyed.observations;
    claims = Unique-sorted_items s.claims keyed.claims;
    evidences = Unique-sorted_items s.evidences keyed.evidences;
    relations = Unique-sorted_items s.relations keyed.relations;
    gaps = Unique-sorted_items s.gaps keyed.gaps;
    rule_definitions = Unique-sorted_items s.rule_definitions keyed.rule_definitions;
    rule_stats = Unique-sorted_items s.rule_stats keyed.rule_stats;
    gap_dedup_index = Unique-sorted_items s.gap_dedup_index keyed.gap_dedup_index;
    claim_gap_refs = Unique-sorted_buckets s.claim_gap_refs keyed.claim_gap_refs;
    gap_resolutions = Unique-sorted_items s.gap_resolutions keyed.gap_resolutions;
    contradictions = Unique-sorted_buckets s.contradictions keyed.contradictions;
    resolved_contradictions =
        Unique-sorted_buckets s.resolved_contradictions keyed.resolved_contradictions;
    claim_lifecycle_events =
        Unique-sorted_items s.claim_lifecycle_events keyed.claim_lifecycle_events;
    settled_claims = λ k es found.
        contains-sorted_buckets k s.contradictions keyed.contradictions
        ∙ keys_along (λ c. contains c s.contradictions ≡ true) s.resolved_contradictions
            (sorted_buckets s.resolved_contradictions)
            (λ c. contains-sorted_buckets c s.resolved_contradictions keyed.resolved_contradictions)
            keyed.settled_claims k es found;
  }

  canonical-IsValid : ⦃fl : Floats F⦄ → IsValid s → IsValid (canonical token s)
  canonical-IsValid v =
      SameStores-IsValid s (canonical token s) (canonical-SameStores token s keyed)
        (λ c. contains-sorted_buckets c s.claim_gap_refs keyed.claim_gap_refs)
        (λ c. contains-sorted_buckets c s.contradictions keyed.contradictions) v

module _ {F : Type 0} ⦃fl : Floats F⦄ ⦃nums : Numbers F⦄ where
  -- A session of a new engine, whose rules have scores in the unit interval, a snapshot, and a second
  -- session of the engine restored from it: the restoring raises nothing, and the second session ends
  -- in a valid engine none of whose dicts holds a key twice, raises included.
  pub resume-IsValid :
      (before after : List (Op F)) (token fresh : String)
      → RulesAreUnit (run before (init token))
      → (t : Engine F) × (from_snapshot fresh (to_snapshot (run before (init token))) ≡ ok t)
        × IsValid (run after t)
        × IsKeyed (run after t)
  resume-IsValid before after token fresh rules =
      let s : Engine F = run before (init token) in
      let valid : IsValid s = run-IsValid before token in
      let keyed : IsKeyed s = run-IsKeyed before token in
      let t : Engine F = canonical fresh s in
      let steps = run-Steps after t (canonical-IsValid fresh s keyed valid) in
      (
        t,
        restore_canonical s fresh valid keyed rules,
        Steps-IsValid steps (canonical-IsValid fresh s keyed valid),
        Steps-IsKeyed steps (canonical-IsKeyed fresh s keyed),
      )
