-- ===== src/Snapshot/ReferenceChecks.antt =====
-- The checks of references in `_validate_snapshot_restore_integrity` (ragcore/_engine/serialization.py),
-- one by one, of a snapshot that passes.
use intelligent_rag_framewor.Prelude.{
  ◌≡◌, ap, ◌∙◌, ℤ, Result, ok, List, [], arith, int_eq, string_eq, pair_eq, quad_eq, and_then,
  and_then_inv, map,
}
use intelligent_rag_framewor.Value.{Value, Fields}
use intelligent_rag_framewor.Value.Comparison.{Numbers}
use intelligent_rag_framewor.Snapshot.Collections.{
  list_at, for_each, collect_id_set, validate_identity_collection,
}
use intelligent_rag_framewor.Snapshot.Integrity.{
  IdSets, collect_id_sets, check_references, check_in, check_own_ids, check_evidence, check_bucket,
  check_resolution, index_of,
}
use intelligent_rag_framewor.Snapshot.AcceptedMembers.{check_target, targets_checked}

module _ {F : Type 0} where
  -- the lists of claims, evidences and gaps, and their ids
  pub collected_lists :
      (snapshot : Fields F) (ids : IdSets)
      → collect_id_sets snapshot ≡ ok ids
      → (collect_id_set snapshot "claims" ≡ ok ids.claims)
        × (collect_id_set snapshot "evidences" ≡ ok ids.evidences)
        × (collect_id_set snapshot "gaps" ≡ ok ids.gaps)
  unfolding collect_id_sets
  collected_lists snapshot ids h =
      let (a1, _, h1) = and_then_inv (collect_id_set snapshot "entities") _ ids h in
      let (a2, _, h2) = and_then_inv (collect_id_set snapshot "observations") _ ids h1 in
      let (claims, c, h3) = and_then_inv (collect_id_set snapshot "claims") _ ids h2 in
      let (evidences, e, h4) = and_then_inv (collect_id_set snapshot "evidences") _ ids h3 in
      let (a5, _, h5) = and_then_inv (collect_id_set snapshot "relations") _ ids h4 in
      let (gaps, g, h6) = and_then_inv (collect_id_set snapshot "gaps") _ ids h5 in
      let (a7, _, h7) = and_then_inv (collect_id_set snapshot "claim_gap_refs") _ ids h6 in
      let (a8, _, h8) = and_then_inv (collect_id_set snapshot "gap_resolutions") _ ids h7 in
      let (a9, _, h9) = and_then_inv (collect_id_set snapshot "contradictions") _ ids h8 in
      let (a10, _, h10) =
        and_then_inv (collect_id_set snapshot "resolved_contradictions") _ ids h9 in
      let (a11, _, h11) =
        and_then_inv (collect_id_set snapshot "claim_lifecycle_events") _ ids h10 in
      let same_claims : claims ≡ ids.claims = ground arith in
      let same_evidences : evidences ≡ ids.evidences = ground arith in
      let same_gaps : gaps ≡ ids.gaps = ground arith in
      (
        c ∙ ap {B = Result (List ℤ)} (λ l. ok l) same_claims,
        e ∙ ap {B = Result (List ℤ)} (λ l. ok l) same_evidences,
        g ∙ ap {B = Result (List ℤ)} (λ l. ok l) same_gaps,
      )

module _ {F : Type 0} ⦃nums : Numbers F⦄ where
  -- The references that a check has passed, list by list.
  pub record Checked (snapshot : Fields F) (ids : IdSets) : Type 0 where
    pub claims : check_own_ids snapshot "claims" ≡ ok tt
    pub evidences : check_own_ids snapshot "evidences" ≡ ok tt
    pub gaps : check_own_ids snapshot "gaps" ≡ ok tt
    pub supported :
        and_then (list_at snapshot "evidences") (for_each (check_evidence ids.claims)) ≡ ok tt
    pub contradictions :
        and_then
          (list_at snapshot "contradictions")
          (for_each (check_bucket ids.claims ids.evidences))
        ≡ ok tt
    pub refs :
        and_then (list_at snapshot "claim_gap_refs") (for_each (check_bucket ids.claims ids.gaps))
        ≡ ok tt
    pub resolutions :
        and_then
          (list_at snapshot "gap_resolutions")
          (for_each (check_resolution ids.gaps ids.evidences))
        ≡ ok tt
    pub targets :
        and_then (list_at snapshot "gap_dedup_index") (for_each (check_target ids.gaps)) ≡ ok tt

  pub check_references-Checked :
      (snapshot : Fields F) (ids : IdSets)
      → check_references snapshot ids ≡ ok tt
      → Checked snapshot ids
  unfolding check_references
  check_references-Checked snapshot ids h =
      let (_, claims, h1) = and_then_inv (check_own_ids snapshot "claims") _ tt h in
      let (_, evidences, h2) = and_then_inv (check_own_ids snapshot "evidences") _ tt h1 in
      let (_, gaps, h3) = and_then_inv (check_own_ids snapshot "gaps") _ tt h2 in
      let (es, es_listed, h4) = and_then_inv (list_at snapshot "evidences") _ tt h3 in
      let (_, supported, h5) = and_then_inv (for_each (check_evidence ids.claims) es) _ tt h4 in
      let (cs, cs_listed, h6) = and_then_inv (list_at snapshot "contradictions") _ tt h5 in
      let (_, contradictions, h7) =
        and_then_inv (for_each (check_bucket ids.claims ids.evidences) cs) _ tt h6 in
      let (index, _, h8) = and_then_inv (index_of cs) _ tt h7 in
      let (rs, rs_listed, h9) = and_then_inv (list_at snapshot "claim_gap_refs") _ tt h8 in
      let (_, refs, h10) = and_then_inv (for_each (check_bucket ids.claims ids.gaps) rs) _ tt h9 in
      let (gs, gs_listed, h11) = and_then_inv (list_at snapshot "gap_resolutions") _ tt h10 in
      let (_, resolutions, h12) =
        and_then_inv (for_each (check_resolution ids.gaps ids.evidences) gs) _ tt h11 in
      let (ts, ts_read, h13) =
        and_then_inv (validate_identity_collection snapshot "gap_dedup_index" 4) _ tt h12 in
      let (_, targets, h14) =
        and_then_inv (for_each (check_in ids.gaps) (map {A = List ℤ × Value F} (λ t. t.1) ts)) _ tt
          h13 in
      let (items, items_listed, items_read) =
        and_then_inv (list_at snapshot "gap_dedup_index") _ ts ts_read in
      record {
        claims = claims;
        evidences = evidences;
        gaps = gaps;
        supported = rw es_listed supported;
        contradictions = rw cs_listed contradictions;
        refs = rw rs_listed refs;
        resolutions = rw gs_listed resolutions;
        targets = rw items_listed (targets_checked 4 ids.gaps [] items ts items_read targets);
      }
