-- ===== src/Loading.antt =====
-- The way from a parsed rule file to a rule: ragcore/condition.py (loading), ragcore/rule_loader.py,
-- ragcore/rule_compile.py, ragcore/rule_output.py and ragcore/rule_gap.py.
pub mod Text
pub mod Tree
pub mod Header
pub mod Maps
pub mod Compile
pub mod Loaded
pub mod Admitted
pub mod Compiled
pub mod Names
pub mod NamedEvidence
pub mod Named
pub mod Tables
pub mod Firing
