-- ===== src/Tests/Scenario.antt =====
-- A session with one claim, whose gap is resolved and which is then disputed, and its end state.
use intelligent_rag_framewor.Prelude.{
  pos, sym, difference, filter_by, elem, adjoin, sort, sort_by, insert_by, leb_ℤ, eqb_ℤ, ◌+ℤ◌, ◌≡◌,
  refl, ℕ, List, [], ◌∷◌, int_eq, string_eq, pair_eq, quad_eq,
}
use intelligent_rag_framewor.Floats.Fixed.{fixed}
use intelligent_rag_framewor.Types.{Claim, score_value}
use intelligent_rag_framewor.Types.ClaimStatus
use intelligent_rag_framewor.Engine.State.{
  Engine, init, advance_state_revision, allocate_id, assert_entity_exists, assert_claim_exists,
  assert_evidence_exists, assert_gap_exists,
}
use intelligent_rag_framewor.Session.{Op, run, perform}
use intelligent_rag_framewor.Engine.Crud.{
  add_entity, add_claim, add_evidence, validate_claim_status_admission,
}
use intelligent_rag_framewor.Engine.Gaps.{
  add_gap, create_gap, resolve_gaps_for_evidence, gaps_for_claim, gaps_at, resolve_each,
  resolve_gap, gap_resolution,
}
use intelligent_rag_framewor.Engine.Lifecycle.{
  refute_disputed_claim_if_ready_by_freshness, active_contradictions_by_freshness, active_set,
  refute_by_first, confirm_claim_if_ready, register_contradiction, dispute_claim_if_ready,
  all_resolved, known_claim, transit,
}
use intelligent_rag_framewor.Engine.LifecycleHistory.{record_claim_lifecycle_transition}
use intelligent_rag_framewor.Prelude.Dict.{lookup, insert, setdefault, get_or}
use intelligent_rag_framewor.Session.Refinement.{run-Steps}
use intelligent_rag_framewor.Spec.Valid.{IsValid}
use intelligent_rag_framewor.Spec.Valid.Start.{init-IsValid}
use intelligent_rag_framewor.Spec.Valid.Preserved.{Steps-IsValid}

abbrev pub calls : List (Op ℕ)
calls =
    Op.add_entity (pos 4) (pos 0)
    ∷ Op.add_claim (pos 1) (pos 2) (pos 7) (pos 1) (pos 0) 8000 ClaimStatus.candidate (pos 0)
    ∷ Op.add_evidence (pos 1) (pos 100) (pos 5) 9000
    ∷ Op.add_gap (pos 1) (pos 3) (pos 5) 5000 (pos 7)
    ∷ Op.resolve_gaps_for_evidence (pos 1)
    ∷ Op.confirm_claim_if_ready (pos 1)
    ∷ Op.register_contradiction (pos 1) (pos 1)
    ∷ Op.dispute_claim_if_ready (pos 1)
    ∷ []

abbrev pub state : Engine ℕ
state = record {
  next_id = ("entity", pos 1) ∷ ("claim", pos 1) ∷ ("evidence", pos 1) ∷ ("gap", pos 1) ∷ [];
  entities = (pos 1, record { id = pos 1; type = pos 4; flags = pos 0 }) ∷ [];
  observations = [];
  claims =
      (
        pos 1,
        record {
          id = pos 1;
          subject_id = pos 1;
          type = pos 2;
          status = pos 3;
          created_by_rule = pos 7;
          created_by_rule_version = pos 1;
          reason_code = pos 0;
          base_confidence = record { value = 8000 };
          flags = pos 0;
        },
      )
      ∷ [];
  evidences =
      (
        pos 1,
        record {
          id = pos 1;
          claim_id = pos 1;
          raw_ref_id = pos 100;
          type = pos 5;
          strength = record { value = 9000 };
        },
      )
      ∷ [];
  relations = [];
  gaps =
      (
        pos 1,
        record {
          id = pos 1;
          claim_id = pos 1;
          type = pos 3;
          required_evidence_type = pos 5;
          severity = record { value = 5000 };
          created_by_rule = pos 7;
        },
      )
      ∷ [];
  rule_definitions = [];
  rule_stats = [];
  gap_dedup_index = ((pos 1, pos 7, pos 3, pos 5), pos 1) ∷ [];
  claim_gap_refs = (pos 1, pos 1 ∷ []) ∷ [];
  gap_resolutions = (pos 1, pos 1) ∷ [];
  contradictions = (pos 1, pos 1 ∷ []) ∷ [];
  resolved_contradictions = [];
  lifecycle_seq = pos 2;
  claim_lifecycle_events =
      (
        pos 1,
        record {
          seq = pos 1;
          claim_id = pos 1;
          from_status = pos 0;
          to_status = pos 1;
          transition = "confirm_if_ready";
        }
            ∷ record {
              seq = pos 2;
              claim_id = pos 1;
              from_status = pos 1;
              to_status = pos 3;
              transition = "dispute_if_ready";
            }
            ∷ [],
      )
      ∷ [];
  hint_evidence_types = [];
  state_identity_token = "token";
  state_revision = pos 8;
}

-- The session ends in that state.
pub calls-state : run calls (init "token") ≡ state
unfolding run perform init add_entity add_claim add_evidence add_gap create_gap
    resolve_gaps_for_evidence confirm_claim_if_ready register_contradiction dispute_claim_if_ready
    validate_claim_status_admission score_value gaps_for_claim gaps_at resolve_each resolve_gap
    all_resolved gap_resolution known_claim transit record_claim_lifecycle_transition
    advance_state_revision allocate_id assert_entity_exists assert_claim_exists
    assert_evidence_exists assert_gap_exists lookup insert setdefault get_or elem adjoin sort
    sort_by insert_by leb_ℤ eqb_ℤ ◌+ℤ◌
calls-state = refl

pub state-IsValid : IsValid state
state-IsValid =
    rw (sym calls-state)
      (Steps-IsValid (run-Steps calls (init "token") (init-IsValid "token")) (init-IsValid "token"))

-- The state after the claim is refuted by its freshest contradiction.
abbrev pub refuted_claim : Claim ℕ
refuted_claim = record {
  id = pos 1;
  subject_id = pos 1;
  type = pos 2;
  status = pos 2;
  created_by_rule = pos 7;
  created_by_rule_version = pos 1;
  reason_code = pos 0;
  base_confidence = record { value = 8000 };
  flags = pos 0;
}

abbrev pub refuted_state : Engine ℕ
refuted_state = record state {
  claims = (pos 1, refuted_claim) ∷ [];
  lifecycle_seq = pos 3;
  claim_lifecycle_events =
      (
        pos 1,
        record {
          seq = pos 1;
          claim_id = pos 1;
          from_status = pos 0;
          to_status = pos 1;
          transition = "confirm_if_ready";
        }
            ∷ record {
              seq = pos 2;
              claim_id = pos 1;
              from_status = pos 1;
              to_status = pos 3;
              transition = "dispute_if_ready";
            }
            ∷ record {
              seq = pos 3;
              claim_id = pos 1;
              from_status = pos 3;
              to_status = pos 2;
              transition = "refute_disputed_by_freshness_if_ready";
            }
            ∷ [],
      )
      ∷ [];
  state_revision = pos 9;
}

refuting-state :
    run (Op.refute_disputed_claim_if_ready_by_freshness (pos 1) ∷ []) state ≡ refuted_state
unfolding run perform refute_disputed_claim_if_ready_by_freshness known_claim assert_claim_exists
    active_contradictions_by_freshness active_set get_or difference filter_by elem sort sort_by
    insert_by refute_by_first transit record_claim_lifecycle_transition advance_state_revision
    insert lookup eqb_ℤ ◌+ℤ◌ leb_ℤ
refuting-state = refl

pub refuted_state-IsValid : IsValid refuted_state
refuted_state-IsValid = rw (sym refuting-state) (
    Steps-IsValid
      (run-Steps (Op.refute_disputed_claim_if_ready_by_freshness (pos 1) ∷ []) state state-IsValid)
      state-IsValid)
