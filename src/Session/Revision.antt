-- ===== src/Session/Revision.antt =====
-- The completed-mutation counter of ragcore/engine.py: what one call of each method does to it.
mod Crud
mod Gaps
mod Stores
mod Hints
mod Lifecycle
pub use Crud.{Counted}
pub use Gaps.{gaps_at_reads, gaps_for_claim_reads}
pub use Lifecycle.{all_resolved_reads}
pub use Stores.{Advances, Unobserved, StatsAgree}
use Stores.{Counted-Advances}
use intelligent_rag_framewor.Prelude.{ℤ, arith}
use intelligent_rag_framewor.Floats.{Floats}
use intelligent_rag_framewor.Engine.State.{Engine, Call}
use intelligent_rag_framewor.Engine.Crud.{add_entity, add_observation, add_claim, add_evidence}
use intelligent_rag_framewor.Engine.Relations.{add_relation}
use intelligent_rag_framewor.Engine.Gaps.{add_gap, resolve_gaps_for_evidence}
use intelligent_rag_framewor.Engine.Lifecycle.{
  confirm_claim_if_ready, dispute_claim_if_ready, refute_claim_if_ready,
  refute_disputed_claim_if_ready, refute_disputed_claim_if_ready_by_freshness,
  register_contradiction, register_contradiction_resolution, resolve_disputed_claim_if_ready,
}
use intelligent_rag_framewor.Session.{Op, perform, done}

module _ {F : Type 0} ⦃fl : Floats F⦄ where
  done-Advances :
      {A : Type 0} (s : Engine F) (m : Call F A) → Counted s (m s) → Advances s (done m s)
  done-Advances s m h = Counted-Advances s (done m s) (ground arith)

  -- A call that raises leaves the whole engine as it was. A call that returns advances the revision
  -- by exactly one, or leaves the engine as it was, but for rule statistics that are equal to the
  -- old ones under `==`.
  pub perform-Advances : (op : Op F) (s : Engine F) → Advances s (perform op s)
  unfolding perform
  perform-Advances (Op.add_entity t f) s =
      done-Advances s (add_entity t f) (Crud.add_entity-Counted s t f)
  perform-Advances (Op.add_observation e r t k) s =
      done-Advances s (add_observation e r t k) (Crud.add_observation-Counted s e r t k)
  perform-Advances (Op.add_claim u t r v n b st f) s =
      done-Advances s (add_claim u t r v n b st f) (Crud.add_claim-Counted s u t r v n b st f)
  perform-Advances (Op.add_evidence c r t x) s =
      done-Advances s (add_evidence c r t x) (Crud.add_evidence-Counted s c r t x)
  perform-Advances (Op.add_relation k i l j t r n) s =
      done-Advances s (add_relation k i l j t r n) (Crud.add_relation-Counted s k i l j t r n)
  perform-Advances (Op.add_gap c t e x r) s =
      done-Advances s (add_gap c t e x r) (Gaps.add_gap-Counted s c t e x r)
  perform-Advances (Op.resolve_gaps_for_evidence e) s =
      done-Advances s (resolve_gaps_for_evidence e) (Gaps.resolve_gaps_for_evidence-Counted s e)
  perform-Advances (Op.register_rule d) s = Counted-Advances s _ (Stores.register_rule-Counted s d)
  perform-Advances (Op.update_rule_stats r v n t f p q) s =
      Stores.update_rule_stats-Advances s r v n t f p q
  perform-Advances (Op.register_hint_evidence_types vs) s =
      Counted-Advances s _ (Hints.register-Counted s vs)
  perform-Advances (Op.unregister_hint_evidence_types vs) s =
      Counted-Advances s _ (Hints.unregister-Counted s vs)
  perform-Advances Op.clear_hint_evidence_types s = Counted-Advances s _ (Hints.clear-Counted s)
  perform-Advances (Op.register_contradiction c e) s =
      done-Advances s (register_contradiction c e) (Lifecycle.register_contradiction-Counted s c e)
  perform-Advances (Op.register_contradiction_resolution c e) s =
      done-Advances s (register_contradiction_resolution c e)
        (Lifecycle.register_resolution-Counted s c e)
  perform-Advances (Op.confirm_claim_if_ready c) s =
      done-Advances s (confirm_claim_if_ready c) (Lifecycle.confirm-Counted s c)
  perform-Advances (Op.refute_claim_if_ready c) s =
      done-Advances s (refute_claim_if_ready c) (Lifecycle.refute-Counted s c)
  perform-Advances (Op.dispute_claim_if_ready c) s =
      done-Advances s (dispute_claim_if_ready c) (Lifecycle.dispute-Counted s c)
  perform-Advances (Op.resolve_disputed_claim_if_ready c) s =
      done-Advances s (resolve_disputed_claim_if_ready c) (Lifecycle.resolve_disputed-Counted s c)
  perform-Advances (Op.refute_disputed_claim_if_ready c) s =
      done-Advances s (refute_disputed_claim_if_ready c) (Lifecycle.refute_disputed-Counted s c)
  perform-Advances (Op.refute_disputed_claim_if_ready_by_freshness c) s =
      done-Advances s (refute_disputed_claim_if_ready_by_freshness c)
        (Lifecycle.refute_by_freshness-Counted s c)
