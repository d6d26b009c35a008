-- ===== src/Snapshot/Restored.antt =====
-- The dicts of `reconstruct_from_snapshot_dict` (ragcore/_engine/serialization.py) that hold references.
use intelligent_rag_framewor.Prelude.{
  ◌≡◌, ok, arith, int_eq, string_eq, pair_eq, quad_eq, and_then, and_then_inv,
}
use intelligent_rag_framewor.Floats.{Floats}
use intelligent_rag_framewor.Value.{Fields}
use intelligent_rag_framewor.Snapshot.Encode.{DecodedEngineState}
use intelligent_rag_framewor.Snapshot.Arguments.{subscript}
use intelligent_rag_framewor.Snapshot.Restore.{
  claim_from_dict, evidence_from_dict, gap_from_dict, entity_from_dict, observation_from_dict,
  relation_from_dict, rule_def_from_dict, rule_stats_from_dict,
}
use intelligent_rag_framewor.Snapshot.Stores.{
  int_set, restore_dict_int, restore_dict_int_set, restore_dict_int_int, restore_dict_tuple4_int,
  restore_dict_tuple, restore_dict_int_list_dataclass,
}
use intelligent_rag_framewor.Snapshot.Collections.{list_at, for_each}
use intelligent_rag_framewor.Snapshot.Decode.{
  reconstruct, check_status_key, restore_next_id, restore_lifecycle_seq,
}

module _ {F : Type 0} ⦃fl : Floats F⦄ where
  -- The dicts that are restored, each from its own collection.
  pub record Restored (snapshot : Fields F) (t : DecodedEngineState F) : Type 0 where
    pub claims :
        and_then (subscript "claims" snapshot) (restore_dict_int claim_from_dict) ≡ ok t.claims
    pub evidences :
        and_then (subscript "evidences" snapshot) (restore_dict_int evidence_from_dict)
        ≡ ok t.evidences
    pub gaps : and_then (subscript "gaps" snapshot) (restore_dict_int gap_from_dict) ≡ ok t.gaps
    pub index :
        and_then (subscript "gap_dedup_index" snapshot) restore_dict_tuple4_int
        ≡ ok t.gap_dedup_index
    pub refs :
        and_then (subscript "claim_gap_refs" snapshot) restore_dict_int_set ≡ ok t.claim_gap_refs
    pub resolutions :
        and_then (subscript "gap_resolutions" snapshot) restore_dict_int_int ≡ ok t.gap_resolutions
    pub contradictions :
        and_then (subscript "contradictions" snapshot) restore_dict_int_set ≡ ok t.contradictions

  moved :
      (snapshot : Fields F) (u t : DecodedEngineState F)
      → ok u ≡ ok t
      → Restored snapshot u
      → Restored snapshot t
  moved snapshot u t h r =
      let same : u ≡ t = ground arith in coe 0 1 (i. Restored snapshot (same i)) r

  pub reconstruct-Restored :
      (snapshot : Fields F) (t : DecodedEngineState F)
      → reconstruct snapshot ≡ ok t
      → Restored snapshot t
  unfolding reconstruct
  reconstruct-Restored snapshot t h =
      let (items, _, h1) = and_then_inv (list_at snapshot "claims") _ t h in
      let (_, _, h2) = and_then_inv (for_each check_status_key items) _ t h1 in
      let (next_id, _, h3) =
        and_then_inv (and_then (subscript "next_id" snapshot) restore_next_id) _ t h2 in
      let (lifecycle_seq, _, h4) = and_then_inv (restore_lifecycle_seq snapshot) _ t h3 in
      let (entities, _, h5) =
        and_then_inv (and_then (subscript "entities" snapshot) (restore_dict_int entity_from_dict))
          _ t h4 in
      let (observations, _, h6) =
        and_then_inv
          (and_then (subscript "observations" snapshot) (restore_dict_int observation_from_dict)) _
          t h5 in
      let (claims, cs, h7) =
        and_then_inv (and_then (subscript "claims" snapshot) (restore_dict_int claim_from_dict)) _ t
          h6 in
      let (evidences, es, h8) =
        and_then_inv
          (and_then (subscript "evidences" snapshot) (restore_dict_int evidence_from_dict)) _ t
          h7 in
      let (relations, _, h9) =
        and_then_inv
          (and_then (subscript "relations" snapshot) (restore_dict_int relation_from_dict)) _ t
          h8 in
      let (gaps, gs, h10) =
        and_then_inv (and_then (subscript "gaps" snapshot) (restore_dict_int gap_from_dict)) _ t
          h9 in
      let (definitions, _, h11) =
        and_then_inv
          (and_then (subscript "rule_definitions" snapshot) (restore_dict_tuple rule_def_from_dict))
          _ t h10 in
      let (stats, _, h12) =
        and_then_inv
          (and_then (subscript "rule_stats" snapshot) (restore_dict_tuple rule_stats_from_dict)) _ t
          h11 in
      let (index, ix, h13) =
        and_then_inv (and_then (subscript "gap_dedup_index" snapshot) restore_dict_tuple4_int) _ t
          h12 in
      let (refs, rs, h14) =
        and_then_inv (and_then (subscript "claim_gap_refs" snapshot) restore_dict_int_set) _ t
          h13 in
      let (resolutions, res, h15) =
        and_then_inv (and_then (subscript "gap_resolutions" snapshot) restore_dict_int_int) _ t
          h14 in
      let (contradictions, con, h16) =
        and_then_inv (and_then (subscript "contradictions" snapshot) restore_dict_int_set) _ t
          h15 in
      let (resolved, _, h17) =
        and_then_inv (and_then (subscript "resolved_contradictions" snapshot) restore_dict_int_set)
          _ t h16 in
      let (events, _, h18) =
        and_then_inv
          (and_then (subscript "claim_lifecycle_events" snapshot) restore_dict_int_list_dataclass) _
          t h17 in
      let (hints, _, h19) =
        and_then_inv (and_then (subscript "hint_evidence_types" snapshot) int_set) _ t h18 in
      moved snapshot _ t h19 (record {
        claims = cs;
        evidences = es;
        gaps = gs;
        index = ix;
        refs = rs;
        resolutions = res;
        contradictions = con;
      })
