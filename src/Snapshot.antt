-- ===== src/Snapshot.antt =====
-- ragcore/_engine/snapshot.py
pub mod Records
pub mod Encode
pub mod Arguments
pub mod Restore
pub mod Stores
pub mod Collections
pub mod Integrity
pub mod Decode
pub mod RecordTrips
pub mod StoreTrips
pub mod CollectionTrips
pub mod ReferenceTrips
pub mod WrittenTrips
pub mod WrittenReferences
pub mod IntegrityTrip
pub mod Canonical
pub mod DecodeTrip
pub mod RoundTrip
pub mod Sessions
pub mod Resumed
pub mod Accepted
pub mod AcceptedParts
pub mod AcceptedMembers
pub mod AcceptedStores
pub mod References
pub mod ReferenceChecks
pub mod Restored
pub mod Soundness
use intelligent_rag_framewor.Prelude.{
  String, List, [], ◌∷◌, Result, ok, raise, and_then, ◌>>=◌, ◌>>◌,
}
use intelligent_rag_framewor.Prelude.Dict.{values}
use intelligent_rag_framewor.Floats.{Floats}
use intelligent_rag_framewor.Value.{Value}
use intelligent_rag_framewor.Value.Comparison.{Numbers}
use intelligent_rag_framewor.Types.{Claim}
use intelligent_rag_framewor.Engine.State.{Engine, init}
use intelligent_rag_framewor.Engine.Crud.{validate_claim_status_admission}
use intelligent_rag_framewor.Snapshot.Encode.{DecodedEngineState, encode_snapshot}
use intelligent_rag_framewor.Snapshot.Decode.{validate_and_decode_snapshot}

module _ {F : Type 0} where
  unfoldable pub state_view : Engine F → DecodedEngineState F
  state_view s = record {
    next_id = s.next_id;
    lifecycle_seq = s.lifecycle_seq;
    entities = s.entities;
    observations = s.observations;
    claims = s.claims;
    evidences = s.evidences;
    relations = s.relations;
    gaps = s.gaps;
    rule_definitions = s.rule_definitions;
    rule_stats = s.rule_stats;
    gap_dedup_index = s.gap_dedup_index;
    claim_gap_refs = s.claim_gap_refs;
    gap_resolutions = s.gap_resolutions;
    contradictions = s.contradictions;
    resolved_contradictions = s.resolved_contradictions;
    claim_lifecycle_events = s.claim_lifecycle_events;
    hint_evidence_types = s.hint_evidence_types;
  }

  unfoldable pub to_snapshot : Engine F → Value F
  unfolding state_view
  to_snapshot s = Value.mapping (encode_snapshot (state_view s))

  unfoldable pub install : DecodedEngineState F → Engine F → Engine F
  install decoded s = record s {
    next_id = decoded.next_id;
    lifecycle_seq = decoded.lifecycle_seq;
    entities = decoded.entities;
    observations = decoded.observations;
    claims = decoded.claims;
    evidences = decoded.evidences;
    relations = decoded.relations;
    gaps = decoded.gaps;
    rule_definitions = decoded.rule_definitions;
    rule_stats = decoded.rule_stats;
    gap_dedup_index = decoded.gap_dedup_index;
    claim_gap_refs = decoded.claim_gap_refs;
    gap_resolutions = decoded.gap_resolutions;
    contradictions = decoded.contradictions;
    resolved_contradictions = decoded.resolved_contradictions;
    claim_lifecycle_events = decoded.claim_lifecycle_events;
    hint_evidence_types = decoded.hint_evidence_types;
  }

  -- the status of each claim is one of the four
  unfoldable pub admit_claims : List (Claim F) → Result (Unit {0})
  admit_claims [] = ok tt
  admit_claims (c ∷ claims) = do validate_claim_status_admission c.status; admit_claims claims

  -- the token is the one that `Engine()` draws
  unfoldable pub from_snapshot :
      ⦃fl : Floats F⦄ ⦃nums : Numbers F⦄ → String → Value F → Result (Engine F)
  from_snapshot token snapshot = do
    decoded ← validate_and_decode_snapshot snapshot
    admit_claims (values decoded.claims)
    ok (install decoded (init token))
