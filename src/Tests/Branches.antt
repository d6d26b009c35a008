-- ===== src/Tests/Branches.antt =====
-- The state of the session of `Tests/Scenario.antt` before its gap is resolved.
use intelligent_rag_framewor.Prelude.{
  pos, sym, elem, adjoin, eqb_ℤ, ◌+ℤ◌, ◌≡◌, refl, ℕ, List, [], ◌∷◌, int_eq, string_eq, pair_eq,
  quad_eq,
}
use intelligent_rag_framewor.Floats.Fixed.{fixed}
use intelligent_rag_framewor.Types.{Claim, score_value}
use intelligent_rag_framewor.Types.ClaimStatus
use intelligent_rag_framewor.Engine.State.{
  Engine, init, advance_state_revision, allocate_id, assert_entity_exists, assert_claim_exists,
}
use intelligent_rag_framewor.Session.{Op, run, perform}
use intelligent_rag_framewor.Engine.Crud.{
  add_entity, add_claim, add_evidence, validate_claim_status_admission,
}
use intelligent_rag_framewor.Engine.Gaps.{add_gap, create_gap}
use intelligent_rag_framewor.Prelude.Dict.{lookup, insert, get_or}
use intelligent_rag_framewor.Session.Refinement.{run-IsValid}
use intelligent_rag_framewor.Spec.Valid.{IsValid}
use intelligent_rag_framewor.Tests.Scenario.{state, refuted_claim}

-- The state before the gap is resolved.
abbrev pub open_claim : Claim ℕ
open_claim = record refuted_claim { status = pos 0 }

abbrev pub open_state : Engine ℕ
open_state = record state {
  claims = (pos 1, open_claim) ∷ [];
  gap_resolutions = [];
  contradictions = [];
  lifecycle_seq = pos 0;
  claim_lifecycle_events = [];
  state_revision = pos 4;
}

abbrev opening : List (Op ℕ)
opening =
    Op.add_entity (pos 4) (pos 0)
    ∷ Op.add_claim (pos 1) (pos 2) (pos 7) (pos 1) (pos 0) 8000 ClaimStatus.candidate (pos 0)
    ∷ Op.add_evidence (pos 1) (pos 100) (pos 5) 9000
    ∷ Op.add_gap (pos 1) (pos 3) (pos 5) 5000 (pos 7)
    ∷ []

opening-state : run opening (init "token") ≡ open_state
unfolding run perform init add_entity add_claim add_evidence add_gap create_gap
    validate_claim_status_admission score_value advance_state_revision allocate_id
    assert_entity_exists assert_claim_exists lookup insert get_or elem adjoin eqb_ℤ ◌+ℤ◌
opening-state = refl

pub open_state-IsValid : IsValid open_state
open_state-IsValid = rw (sym opening-state) (run-IsValid opening "token")
