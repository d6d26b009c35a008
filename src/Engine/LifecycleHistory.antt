-- ===== src/Engine/LifecycleHistory.antt =====
-- ragcore/_engine/lifecycle_history.py: the audit trail of status transitions.
use intelligent_rag_framewor.Prelude.{ℤ, pos, ◌+ℤ◌, String, List, [], ◌∷◌, ◌++◌, int_eq}
use intelligent_rag_framewor.Prelude.Dict.{insert, get_or}
use intelligent_rag_framewor.Types.{ClaimLifecycleEvent}
use intelligent_rag_framewor.Engine.State.{Call, ◌>>=◌, ◌>>◌, gets, modify, assert_claim_exists}

module _ {F : Type 0} where
  unfoldable pub record_claim_lifecycle_transition : ℤ → ℤ → ℤ → String → Call F (Unit {0})
  record_claim_lifecycle_transition claim_id from_status to_status transition = do
    modify (λ s. record s { lifecycle_seq = s.lifecycle_seq +ℤ pos 1 })
    seq ← gets (λ s. s.lifecycle_seq)
    let event : ClaimLifecycleEvent = record {
      seq = seq;
      claim_id = claim_id;
      from_status = from_status;
      to_status = to_status;
      transition = transition;
    }
    modify (λ s. record s {
      claim_lifecycle_events =
          insert claim_id (get_or s.claim_lifecycle_events claim_id [] ++ event ∷ [])
            s.claim_lifecycle_events;
    })

  unfoldable pub claim_lifecycle_history : ℤ → Call F (List ClaimLifecycleEvent)
  unfolding assert_claim_exists
  claim_lifecycle_history claim_id = do
    assert_claim_exists claim_id
    gets (λ s. get_or s.claim_lifecycle_events claim_id [])
