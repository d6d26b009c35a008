-- ===== src/Tests.antt =====
-- Concrete sessions and a rule, on which the theorems are applied.
mod Scenario
mod Branches
mod Witnesses
mod Answers
mod Rules
mod Snapshots
mod Loading
