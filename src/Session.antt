-- ===== src/Session.antt =====
-- A client's calls of the state-changing methods of `Engine` (ragcore/engine.py and the mixins), one
-- after another. A call that raises is caught, and the session goes on.
pub mod Revision
pub mod Refinement
pub mod Memory
pub mod Audit
pub mod Dedup
pub mod Readiness
pub mod Edges
pub mod Resolving
use intelligent_rag_framewor.Prelude.{ℤ, Option, List, [], ◌∷◌}
use intelligent_rag_framewor.Floats.{Floats}
use intelligent_rag_framewor.Value.{Value}
use intelligent_rag_framewor.Types.{ScoreValue, RuleDefinition}
use intelligent_rag_framewor.Engine.State.{Engine, Call, ◌>>=◌, ◌>>◌, pure}
use intelligent_rag_framewor.Engine.Crud
use intelligent_rag_framewor.Engine.Relations
use intelligent_rag_framewor.Engine.Gaps
use intelligent_rag_framewor.Engine.HintEvidence
use intelligent_rag_framewor.Engine.Rules
use intelligent_rag_framewor.Engine.Lifecycle

pub data Op (F : Type 0) : Type 0 where
  add_entity : ℤ → ℤ → Op F
  add_observation : ℤ → ℤ → ℤ → ℤ → Op F
  add_claim : ℤ → ℤ → ℤ → ℤ → ℤ → F → ℤ → ℤ → Op F
  add_evidence : ℤ → ℤ → ℤ → F → Op F
  add_relation : ℤ → ℤ → ℤ → ℤ → ℤ → ℤ → ℤ → Op F
  add_gap : ℤ → ℤ → ℤ → F → ℤ → Op F
  resolve_gaps_for_evidence : ℤ → Op F
  register_rule : RuleDefinition F → Op F
  update_rule_stats : ℤ → ℤ → ℤ → ℤ → ℤ → Option (ScoreValue F) → Option (ScoreValue F) → Op F
  register_hint_evidence_types : Value F → Op F
  unregister_hint_evidence_types : Value F → Op F
  clear_hint_evidence_types : Op F
  register_contradiction : ℤ → ℤ → Op F
  register_contradiction_resolution : ℤ → ℤ → Op F
  confirm_claim_if_ready : ℤ → Op F
  refute_claim_if_ready : ℤ → Op F
  dispute_claim_if_ready : ℤ → Op F
  resolve_disputed_claim_if_ready : ℤ → Op F
  refute_disputed_claim_if_ready : ℤ → Op F
  refute_disputed_claim_if_ready_by_freshness : ℤ → Op F

abbrev pub done : {F A : Type 0} → Call F A → Call F (Unit {0})
done m = m >>= λ _. pure tt

module _ {F : Type 0} ⦃fl : Floats F⦄ where
  unfoldable pub perform : Op F → Call F (Unit {0})
  perform (Op.add_entity t f) = done (Crud.add_entity t f)
  perform (Op.add_observation e r t k) = done (Crud.add_observation e r t k)
  perform (Op.add_claim u t r v n b st f) = done (Crud.add_claim u t r v n b st f)
  perform (Op.add_evidence c r t x) = done (Crud.add_evidence c r t x)
  perform (Op.add_relation k i l j t r n) = done (Relations.add_relation k i l j t r n)
  perform (Op.add_gap c t e x r) = done (Gaps.add_gap c t e x r)
  perform (Op.resolve_gaps_for_evidence e) = done (Gaps.resolve_gaps_for_evidence e)
  perform (Op.register_rule d) = Rules.register_rule d
  perform (Op.update_rule_stats r v n t f p q) = Rules.update_rule_stats r v n t f p q
  perform (Op.register_hint_evidence_types vs) = HintEvidence.register_hint_evidence_types vs
  perform (Op.unregister_hint_evidence_types vs) = HintEvidence.unregister_hint_evidence_types vs
  perform Op.clear_hint_evidence_types = HintEvidence.clear_hint_evidence_types
  perform (Op.register_contradiction c e) = done (Lifecycle.register_contradiction c e)
  perform (Op.register_contradiction_resolution c e) =
      done (Lifecycle.register_contradiction_resolution c e)
  perform (Op.confirm_claim_if_ready c) = done (Lifecycle.confirm_claim_if_ready c)
  perform (Op.refute_claim_if_ready c) = done (Lifecycle.refute_claim_if_ready c)
  perform (Op.dispute_claim_if_ready c) = done (Lifecycle.dispute_claim_if_ready c)
  perform (Op.resolve_disputed_claim_if_ready c) =
      done (Lifecycle.resolve_disputed_claim_if_ready c)
  perform (Op.refute_disputed_claim_if_ready c) = done (Lifecycle.refute_disputed_claim_if_ready c)
  perform (Op.refute_disputed_claim_if_ready_by_freshness c) =
      done (Lifecycle.refute_disputed_claim_if_ready_by_freshness c)

  unfoldable pub run : List (Op F) → Engine F → Engine F
  run [] s = s
  run (op ∷ ops) s = run ops (perform op s).1
