-- ===== src/Snapshot/RoundTrip.antt =====
-- Taking a snapshot and restoring it (ragcore/_engine/snapshot.py).
use intelligent_rag_framewor.Prelude.{
  ◌≡◌, refl, ℤ, pos, String, ok, List, [], ◌∷◌, map, arith, eqb_ℤ, eqb_ℤ_iff, sort_by, int_eq,
  string_eq, pair_eq, quad_eq, Every, elem, sort, elem-sort, adjoin, elem-adjoin, elem-nil, ◌||◌,
}
use intelligent_rag_framewor.Prelude.Dict.{Dict, lookup, get_or, values}
use intelligent_rag_framewor.Prelude.Items.{
  Unique, Unique-sorted_items, Each-sorted_items, Every-entries, sorted_items, lookup-sorted_items,
  int_order, string_order, pair_order, quad_order,
}
use intelligent_rag_framewor.Floats.{Floats}
use intelligent_rag_framewor.Types.{Claim}
use intelligent_rag_framewor.Types.ClaimStatus
use intelligent_rag_framewor.Value.Comparison.{Numbers}
use intelligent_rag_framewor.Engine.State.{Engine, init}
use intelligent_rag_framewor.Engine.Crud.{validate_claim_status_admission}
use intelligent_rag_framewor.Engine.HintEvidence.{update_set}
use intelligent_rag_framewor.Spec.{IsStatus}
use intelligent_rag_framewor.Spec.Valid.{IsValid}
use intelligent_rag_framewor.Spec.Keyed.{IsKeyed}
use intelligent_rag_framewor.Snapshot.{
  state_view, install, to_snapshot, from_snapshot, admit_claims,
}
use intelligent_rag_framewor.Snapshot.Encode.{encode_snapshot}
use intelligent_rag_framewor.Snapshot.Decode.{
  migrate_snapshot_to_current, validate_and_decode_snapshot,
}
use intelligent_rag_framewor.Snapshot.Stores.{hashable}
use intelligent_rag_framewor.Snapshot.Canonical.{
  canonical, sorted_set, sorted_buckets, SameStores, RulesAreUnit,
}
use intelligent_rag_framewor.Snapshot.ReferenceTrips.{value_eq-int}
use intelligent_rag_framewor.Snapshot.IntegrityTrip.{validate-encode}
use intelligent_rag_framewor.Snapshot.DecodeTrip.{reconstruct-encode}

elem-update_set : (k : ℤ) (acc ns : List ℤ) → elem k (update_set acc ns) ≡ (elem k acc || elem k ns)
unfolding update_set elem
elem-update_set k acc [] = ground arith
elem-update_set k acc (n ∷ ns) =
    ground (arith, elem-update_set k (adjoin n acc) ns, elem-adjoin k n acc)

pub elem-sorted_set : (k : ℤ) (ns : List ℤ) → elem k (sorted_set ns) ≡ elem k ns
elem-sorted_set k ns = ground (arith, elem-update_set k [] (sort ns), elem-nil k, elem-sort k ns)

lookup-mapped_sets :
    (k : ℤ) (d : Dict ℤ (List ℤ))
    → get_or (map (λ p. (p.0, sorted_set p.1)) d) k [] ≡ sorted_set (get_or d k [])
unfolding get_or lookup sort sort_by update_set
lookup-mapped_sets k [] = refl
lookup-mapped_sets k ((j, ns) ∷ d) = ground (arith, lookup-mapped_sets k d)

admitted : (n : ℤ) → IsStatus n → validate_claim_status_admission n ≡ ok tt
unfolding validate_claim_status_admission
admitted n h = ground (
  arith,
  eqb_ℤ_iff n ClaimStatus.candidate,
  eqb_ℤ_iff n ClaimStatus.confirmed,
  eqb_ℤ_iff n ClaimStatus.refuted,
  eqb_ℤ_iff n ClaimStatus.disputed,
)

module _ {F : Type 0} where
  claims_admitted :
      (d : Dict ℤ (Claim F)) → Every (λ p. IsStatus p.1.status) d → admit_claims (values d) ≡ ok tt
  unfolding admit_claims
  claims_admitted [] h = refl
  claims_admitted (p ∷ d) (own, h) = rw (admitted p.1.status own) (claims_admitted d h)

module _ {F : Type 0} ⦃fl : Floats F⦄ ⦃nums : Numbers F⦄ (s : Engine F) where
  pub current_migrates :
      migrate_snapshot_to_current (encode_snapshot (state_view s))
      ≡ ok (encode_snapshot (state_view s))
  unfolding migrate_snapshot_to_current encode_snapshot hashable eqb_ℤ
  current_migrates = rw (value_eq-int F (pos 2) (pos 1), value_eq-int F (pos 2) (pos 2)) refl

  pub restore_canonical :
      (token : String)
      → IsValid s
      → IsKeyed s
      → RulesAreUnit s
      → from_snapshot token (to_snapshot s) ≡ ok (canonical token s)
  unfolding from_snapshot to_snapshot validate_and_decode_snapshot install init state_view
  restore_canonical token valid keyed rules =
      rw
        (
          current_migrates,
          validate-encode s valid keyed,
          reconstruct-encode s valid keyed rules token,
          claims_admitted (sorted_items s.claims) (
              Every-entries (λ _ x. IsStatus x.status) (sorted_items s.claims)
                (Unique-sorted_items s.claims keyed.claims)
                (Each-sorted_items (λ _ x. IsStatus x.status) s.claims keyed.claims
                  valid.statuses)),
        )
        refl

buckets_same :
    (d : Dict ℤ (List ℤ)) (k i : ℤ)
    → Unique d
    → elem i (get_or (sorted_buckets d) k []) ≡ elem i (get_or d k [])
unfolding get_or
buckets_same d k i u =
    rw (lookup-mapped_sets k (sorted_items d), elem-sorted_set i (get_or (sorted_items d) k []))
      (ground (arith, lookup-sorted_items k d u))

module _ {F : Type 0} where
  pub canonical-SameStores :
      (token : String) (s : Engine F) → IsKeyed s → SameStores s (canonical token s)
  canonical-SameStores token s keyed = record {
    next_id = λ k. lookup-sorted_items k s.next_id keyed.next_id;
    entities = λ k. lookup-sorted_items k s.entities keyed.entities;
    observations = λ k. lookup-sorted_items k s.observations keyed.observations;
    claims = λ k. lookup-sorted_items k s.claims keyed.claims;
    evidences = λ k. lookup-sorted_items k s.evidences keyed.evidences;
    relations = λ k. lookup-sorted_items k s.relations keyed.relations;
    gaps = λ k. lookup-sorted_items k s.gaps keyed.gaps;
    rule_definitions = λ k. lookup-sorted_items k s.rule_definitions keyed.rule_definitions;
    rule_stats = λ k. lookup-sorted_items k s.rule_stats keyed.rule_stats;
    gap_dedup_index = λ k. lookup-sorted_items k s.gap_dedup_index keyed.gap_dedup_index;
    claim_gap_refs = λ k i. buckets_same s.claim_gap_refs k i keyed.claim_gap_refs;
    gap_resolutions = λ k. lookup-sorted_items k s.gap_resolutions keyed.gap_resolutions;
    contradictions = λ k i. buckets_same s.contradictions k i keyed.contradictions;
    resolved_contradictions =
        λ k i. buckets_same s.resolved_contradictions k i keyed.resolved_contradictions;
    lifecycle_seq = refl;
    claim_lifecycle_events =
        λ k. lookup-sorted_items k s.claim_lifecycle_events keyed.claim_lifecycle_events;
    hint_evidence_types = λ i. elem-sorted_set i s.hint_evidence_types;
  }

module _ {F : Type 0} ⦃fl : Floats F⦄ ⦃nums : Numbers F⦄ where
  -- For an engine that satisfies the invariants of a session and whose rules have scores in the unit
  -- interval, `from_snapshot` on the result of `to_snapshot` raises nothing: it gives an engine in
  -- which every store reads the same, with the new token and revision 0.
  pub from_snapshot-to_snapshot :
      (token : String) (s : Engine F)
      → IsValid s
      → IsKeyed s
      → RulesAreUnit s
      → (t : Engine F) × (from_snapshot token (to_snapshot s) ≡ ok t)
        × SameStores s t
        × (t.state_identity_token ≡ token)
        × (t.state_revision ≡ pos 0)
  from_snapshot-to_snapshot token s valid keyed rules = (
    canonical token s,
    restore_canonical s token valid keyed rules,
    canonical-SameStores token s keyed,
    refl,
    refl,
  )
