-- ===== src/Session/Audit.antt =====
-- The audit trail of ragcore/_engine/lifecycle_history.py over a session of calls.
use intelligent_rag_framewor.Prelude.{String, List, arith, int_eq, string_eq}
use intelligent_rag_framewor.Prelude.Dict.{lookup, get_or}
use intelligent_rag_framewor.Floats.{Floats}
use intelligent_rag_framewor.Engine.State.{init}
use intelligent_rag_framewor.Session.{Op, run}
use intelligent_rag_framewor.Session.Refinement.{run-Steps}
use intelligent_rag_framewor.Spec.Trail.{HasTrail, Steps-HasTrail}
use intelligent_rag_framewor.Spec.Valid.Start.{init-IsValid}

module _ {F : Type 0} ⦃fl : Floats F⦄ where
  init-HasTrail : (token : String) → HasTrail {F = F} (init token)
  unfolding init lookup get_or
  init-HasTrail token = ground arith

  -- After every session of a new engine, the history of each claim is a chain of the six moves, with
  -- the label of each: the first event starts from some status, each other one from where the one
  -- before it ended, and the last one ends at the status that the claim has. The sequence numbers
  -- rise strictly, from 1 up to the last one given. An id with no claim has no events.
  pub run-HasTrail : (ops : List (Op F)) (token : String) → HasTrail (run ops (init token))
  run-HasTrail ops token =
      Steps-HasTrail (run-Steps ops (init token) (init-IsValid token)) (init-IsValid token)
        (init-HasTrail token)
