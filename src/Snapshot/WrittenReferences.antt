-- ===== src/Snapshot/WrittenReferences.antt =====
-- The checks of references in ragcore/_engine/serialization.py, on what the encoder writes for a valid
-- engine.
use intelligent_rag_framewor.Prelude.{
  ◌≡◌, refl, sym, ◌∙◌, ℤ, true, some, ok, List, [], arith, int_eq, string_eq, pair_eq, quad_eq,
  ◌==◌, elem, sort, elem-sort, Option-cases, inl, inr,
}
use intelligent_rag_framewor.Prelude.Dict.{Dict, lookup, get_or, get_or_known}
use intelligent_rag_framewor.Prelude.Items.{
  sorted_items, lookup-sorted_items, int_order, string_order, pair_order, quad_order,
}
use intelligent_rag_framewor.Floats.{Floats}
use intelligent_rag_framewor.Value.{Value}
use intelligent_rag_framewor.Value.Comparison.{Numbers}
use intelligent_rag_framewor.Engine.State.{Engine}
use intelligent_rag_framewor.Spec.Valid.{IsValid}
use intelligent_rag_framewor.Spec.Keyed.{IsKeyed}
use intelligent_rag_framewor.Snapshot.Records.{claim_to_dict, evidence_to_dict, gap_to_dict}
use intelligent_rag_framewor.Snapshot.Encode.{ints}
use intelligent_rag_framewor.Snapshot.StoreTrips.{to_list-values_of}
use intelligent_rag_framewor.Snapshot.Collections.{for_each}
use intelligent_rag_framewor.Snapshot.Integrity.{
  check_own_id, check_evidence, check_bucket, check_resolution, check_resolved, index_of,
}
use intelligent_rag_framewor.Snapshot.ReferenceTrips.{
  value_eq-int, check_in-int, check_bucket-ints, check_resolved-ints, index_of-entries, written,
}
use intelligent_rag_framewor.Snapshot.WrittenTrips.{
  sorted_keys, known_key, written_items, for_each-written,
}

module _ {F : Type 0} ⦃fl : Floats F⦄ ⦃nums : Numbers F⦄ (s : Engine F) (valid : IsValid s)
    (keyed : IsKeyed s) where
  owned : (k : ℤ) (id : ℤ) → id ≡ k → (id == k) ≡ true
  owned k id h = ground (arith, int_eq.test_iff id k)

  pub claims_own :
      for_each check_own_id (written_items (λ k. Value.int k) (claim_to_dict {F = F}) s.claims)
      ≡ ok tt
  claims_own =
      for_each-written (λ k. Value.int k) claim_to_dict check_own_id s.claims keyed.claims
        (λ k x found.
          let (own, _, _) = valid.claim_ids k x found in
          rw (value_eq-int F x.id k, owned k x.id own) refl)

  pub evidences_own :
      for_each check_own_id
        (written_items (λ k. Value.int k) (evidence_to_dict {F = F}) s.evidences)
      ≡ ok tt
  evidences_own =
      for_each-written (λ k. Value.int k) evidence_to_dict check_own_id s.evidences keyed.evidences
        (λ k x found.
          let (own, _, _) = valid.evidence_ids k x found in
          rw (value_eq-int F x.id k, owned k x.id own) refl)

  pub gaps_own :
      for_each check_own_id (written_items (λ k. Value.int k) (gap_to_dict {F = F}) s.gaps) ≡ ok tt
  gaps_own =
      for_each-written (λ k. Value.int k) gap_to_dict check_own_id s.gaps keyed.gaps
        (λ k x found.
          let (own, _, _) = valid.gap_ids k x found in
          rw (value_eq-int F x.id k, owned k x.id own) refl)

  pub evidences_pass :
      for_each
        (check_evidence (sorted_keys s.claims))
        (written_items (λ k. Value.int k) (evidence_to_dict {F = F}) s.evidences)
      ≡ ok tt
  evidences_pass =
      for_each-written (λ k. Value.int k) evidence_to_dict (check_evidence (sorted_keys s.claims))
        s.evidences keyed.evidences
        (λ k x found.
          check_in-int F x.claim_id (sorted_keys s.claims)
            (known_key x.claim_id s.claims keyed.claims (valid.supported k x found)))

  -- the members of a stored set
  stored_member :
      (d : Dict ℤ (List ℤ)) (k i : ℤ) (ns : List ℤ)
      → lookup k d ≡ some ns
      → elem i (sort ns) ≡ true
      → elem i (get_or d k []) ≡ true
  stored_member d k i ns found known =
      rw (get_or_known d k [] ns found) (sym (elem-sort i ns) ∙ known)

  pub contradictions_pass :
      for_each
        (check_bucket (sorted_keys s.claims) (sorted_keys s.evidences))
        (written_items (λ k. Value.int k) (λ ns. ints {F = F} (sort ns)) s.contradictions)
      ≡ ok tt
  contradictions_pass =
      for_each-written (λ k. Value.int k) (λ ns. ints (sort ns))
        (check_bucket (sorted_keys s.claims) (sorted_keys s.evidences)) s.contradictions
        keyed.contradictions
        (λ k ns found.
          check_bucket-ints F k (sort ns) (sorted_keys s.claims) (sorted_keys s.evidences)
            (known_key k s.claims keyed.claims (valid.contradicted k ns found))
            (λ i known.
              known_key i s.evidences keyed.evidences
                (valid.contradicting k i (stored_member s.contradictions k i ns found known))))

  pub refs_pass :
      for_each
        (check_bucket (sorted_keys s.claims) (sorted_keys s.gaps))
        (written_items (λ k. Value.int k) (λ ns. ints {F = F} (sort ns)) s.claim_gap_refs)
      ≡ ok tt
  refs_pass =
      for_each-written (λ k. Value.int k) (λ ns. ints (sort ns))
        (check_bucket (sorted_keys s.claims) (sorted_keys s.gaps)) s.claim_gap_refs
        keyed.claim_gap_refs
        (λ k ns found.
          check_bucket-ints F k (sort ns) (sorted_keys s.claims) (sorted_keys s.gaps)
            (known_key k s.claims keyed.claims (valid.referring k ns found))
            (λ i known.
              known_key i s.gaps keyed.gaps
                (valid.referred k i (stored_member s.claim_gap_refs k i ns found known))))

  pub resolutions_pass :
      for_each {F = F}
        (check_resolution (sorted_keys s.gaps) (sorted_keys s.evidences))
        (written_items (λ k. Value.int k) (λ (n : ℤ). Value.int n) s.gap_resolutions)
      ≡ ok tt
  resolutions_pass =
      for_each-written (λ k. Value.int k) (λ (n : ℤ). Value.int n)
        (check_resolution (sorted_keys s.gaps) (sorted_keys s.evidences)) s.gap_resolutions
        keyed.gap_resolutions
        (λ k n found.
          rw
            (check_in-int F k (sorted_keys s.gaps)
              (known_key k s.gaps keyed.gaps (valid.resolved_gaps k n found)))
            (check_in-int F n (sorted_keys s.evidences)
              (known_key n s.evidences keyed.evidences (valid.resolving k n found))))

  pub index_pass :
      index_of (written_items (λ k. Value.int k) (λ ns. ints {F = F} (sort ns)) s.contradictions)
      ≡ ok (written F (sorted_items s.contradictions))
  index_pass = rw to_list-values_of (index_of-entries F (sorted_items s.contradictions))

  pub resolved_pass :
      for_each
        (check_resolved (sorted_keys s.claims) (written F (sorted_items s.contradictions)))
        (written_items (λ k. Value.int k) (λ ns. ints {F = F} (sort ns)) s.resolved_contradictions)
      ≡ ok tt
  resolved_pass =
      for_each-written (λ k. Value.int k) (λ ns. ints (sort ns))
        (check_resolved (sorted_keys s.claims) (written F (sorted_items s.contradictions)))
        s.resolved_contradictions keyed.resolved_contradictions
        (λ k ns found. elim (Option-cases (lookup k s.contradictions)) [
          | inl absent ↦ ground (arith, keyed.settled_claims k ns found)
          | inr (es, there) ↦
              check_resolved-ints F k ns es (sorted_keys s.claims) (sorted_items s.contradictions)
                (known_key k s.claims keyed.claims (valid.contradicted k es there))
                (lookup-sorted_items k s.contradictions keyed.contradictions ∙ there)
                (λ n known. ground (
                  arith,
                  valid.settled k n,
                  get_or_known s.contradictions k [] es there,
                  get_or_known s.resolved_contradictions k [] ns found,
                ))
        ])
