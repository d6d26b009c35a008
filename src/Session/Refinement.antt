-- ===== src/Session/Refinement.antt =====
-- Each call of a state-changing method is a sequence of steps of the abstract machine.
mod Reads
mod Crud
mod Gaps
pub use Gaps.{add_gap-Steps}
pub use Crud.{add_claim-Steps}
pub use Stores.{update_rule_stats-Steps}
mod Resolution
mod Stores
mod Contradictions
pub mod Transitions
mod Lifecycle
use intelligent_rag_framewor.Prelude.{String, ℤ, List, [], ◌∷◌, ◌≡◌, arith}
use intelligent_rag_framewor.Floats.{Floats}
use intelligent_rag_framewor.Engine.State.{Engine, Call, init}
use intelligent_rag_framewor.Engine.Crud.{add_entity, add_observation, add_claim, add_evidence}
use intelligent_rag_framewor.Engine.Relations.{add_relation}
use intelligent_rag_framewor.Engine.Gaps.{add_gap, resolve_gaps_for_evidence}
use intelligent_rag_framewor.Engine.Lifecycle.{
  confirm_claim_if_ready, dispute_claim_if_ready, refute_claim_if_ready,
  refute_disputed_claim_if_ready, refute_disputed_claim_if_ready_by_freshness,
  register_contradiction, register_contradiction_resolution, resolve_disputed_claim_if_ready,
}
use intelligent_rag_framewor.Session.{Op, perform, run, done}
use intelligent_rag_framewor.Spec.{Steps, Steps-trans}
use intelligent_rag_framewor.Spec.Valid.{IsValid}
use intelligent_rag_framewor.Spec.Valid.Start.{init-IsValid}
use intelligent_rag_framewor.Spec.Valid.Preserved.{Steps-IsValid}

module _ {F : Type 0} ⦃fl : Floats F⦄ where
  done_state : {A : Type 0} (s : Engine F) (m : Call F A) → (done m s).1 ≡ (m s).1
  done_state s m = ground arith

  done-Steps : {A : Type 0} (s : Engine F) (m : Call F A) → Steps s (m s).1 → Steps s (done m s).1
  done-Steps s m steps = rw (done_state s m) steps

  -- Every call of a state-changing method, whether it returns or raises, is a sequence of steps of
  -- the abstract machine, on a valid engine: no guard of a step is skipped.
  pub perform-Steps : (op : Op F) (s : Engine F) → IsValid s → Steps s (perform op s).1
  unfolding perform
  perform-Steps (Op.add_entity t f) s v =
      done-Steps s (add_entity t f) (Crud.add_entity-Steps s t f)
  perform-Steps (Op.add_observation e r t k) s v =
      done-Steps s (add_observation e r t k) (Crud.add_observation-Steps s e r t k)
  perform-Steps (Op.add_claim u t r v' n b st f) s v =
      done-Steps s (add_claim u t r v' n b st f) (Crud.add_claim-Steps s u t r v' n b st f)
  perform-Steps (Op.add_evidence c r t x) s v =
      done-Steps s (add_evidence c r t x) (Crud.add_evidence-Steps s c r t x)
  perform-Steps (Op.add_relation k i l j t r n) s v =
      done-Steps s (add_relation k i l j t r n) (Crud.add_relation-Steps s k i l j t r n)
  perform-Steps (Op.add_gap c t e x r) s v =
      done-Steps s (add_gap c t e x r) (Gaps.add_gap-Steps s c t e x r)
  perform-Steps (Op.resolve_gaps_for_evidence e) s v =
      done-Steps s (resolve_gaps_for_evidence e) (Resolution.resolve_gaps_for_evidence-Steps s v e)
  perform-Steps (Op.register_rule d) s v = Stores.register_rule-Steps s d
  perform-Steps (Op.update_rule_stats r v' n t f p q) s v =
      Stores.update_rule_stats-Steps s r v' n t f p q
  perform-Steps (Op.register_hint_evidence_types vs) s v =
      Stores.register_hint_evidence_types-Steps s vs
  perform-Steps (Op.unregister_hint_evidence_types vs) s v =
      Stores.unregister_hint_evidence_types-Steps s vs
  perform-Steps Op.clear_hint_evidence_types s v = Stores.clear_hint_evidence_types-Steps s
  perform-Steps (Op.register_contradiction c e) s v =
      done-Steps s (register_contradiction c e) (Contradictions.register_contradiction-Steps s c e)
  perform-Steps (Op.register_contradiction_resolution c e) s v =
      done-Steps s (register_contradiction_resolution c e)
        (Contradictions.register_resolution-Steps s c e)
  perform-Steps (Op.confirm_claim_if_ready c) s v =
      done-Steps s (confirm_claim_if_ready c) (Lifecycle.confirm-Steps s v c)
  perform-Steps (Op.refute_claim_if_ready c) s v =
      done-Steps s (refute_claim_if_ready c) (Lifecycle.refute-Steps s c)
  perform-Steps (Op.dispute_claim_if_ready c) s v =
      done-Steps s (dispute_claim_if_ready c) (Lifecycle.dispute-Steps s c)
  perform-Steps (Op.resolve_disputed_claim_if_ready c) s v =
      done-Steps s (resolve_disputed_claim_if_ready c) (Lifecycle.resolve_disputed-Steps s c)
  perform-Steps (Op.refute_disputed_claim_if_ready c) s v =
      done-Steps s (refute_disputed_claim_if_ready c) (Lifecycle.refute_disputed-Steps s c)
  perform-Steps (Op.refute_disputed_claim_if_ready_by_freshness c) s v =
      done-Steps s (refute_disputed_claim_if_ready_by_freshness c)
        (Lifecycle.refute_by_freshness-Steps s c)

  -- On a valid engine, every call leaves a valid engine, whether it returns or raises.
  pub perform-IsValid : (op : Op F) (s : Engine F) → IsValid s → IsValid (perform op s).1
  perform-IsValid op s v = Steps-IsValid (perform-Steps op s v) v

  -- A session of calls, raises included, is a sequence of steps of the abstract machine.
  pub run-Steps : (ops : List (Op F)) (s : Engine F) → IsValid s → Steps s (run ops s)
  unfolding run
  run-Steps [] s v = Steps.here
  run-Steps (op ∷ ops) s v =
      Steps-trans (perform-Steps op s v) (run-Steps ops (perform op s).1 (perform-IsValid op s v))

  -- Every session of a new engine ends in a valid engine.
  pub run-IsValid : (ops : List (Op F)) (token : String) → IsValid {F = F} (run ops (init token))
  run-IsValid ops token =
      Steps-IsValid (run-Steps ops (init token) (init-IsValid token)) (init-IsValid token)
