-- ===== src/Scoring.antt =====
-- What the effective confidence of ragcore/_engine/confidence.py and confidence_adapters.py promises.
mod Units
mod Strengths
pub mod Readings
pub mod Modifiers
pub mod Effective
