-- ===== src/Engine.antt =====
-- ragcore/engine.py and the mixins of ragcore/_engine, one child module to each.
pub mod State
pub mod Crud
pub mod Relations
pub mod Gaps
pub mod HintEvidence
pub mod Rules
pub mod LifecycleHistory
pub mod Lifecycle
pub mod Confidence
pub mod ConfidenceAdapters
