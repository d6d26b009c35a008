-- ===== src/Tests/Snapshots.antt =====
-- The snapshot of the session of `Tests/Scenario.antt`, restored.
use intelligent_rag_framewor.Prelude.{
  ℕ, pos, ◌≡◌, ◌≢◌, sym, ok, raise, value_error, some, none, [], arith, int_eq, string_eq,
}
use intelligent_rag_framewor.Prelude.Dict.{lookup}
use intelligent_rag_framewor.Floats.Fixed.{fixed}
use intelligent_rag_framewor.Value.{Value, Fields}
use intelligent_rag_framewor.Value.Comparison.{lookup_field}
use intelligent_rag_framewor.Engine.State.{Engine, init}
use intelligent_rag_framewor.Session.{run}
use intelligent_rag_framewor.Spec.{IsStatus}
use intelligent_rag_framewor.Spec.Valid.{Each, IsValid}
use intelligent_rag_framewor.Spec.Keyed.{IsKeyed}
use intelligent_rag_framewor.Snapshot.{to_snapshot, from_snapshot, state_view}
use intelligent_rag_framewor.Snapshot.References.{HasReferences}
use intelligent_rag_framewor.Snapshot.Resumed.{resume-IsValid}
use intelligent_rag_framewor.Snapshot.Soundness.{from_snapshot-HasReferences}
use intelligent_rag_framewor.Snapshot.Canonical.{SameStores, RulesAreUnit}
use intelligent_rag_framewor.Snapshot.Decode.{migrate_snapshot_to_current}
use intelligent_rag_framewor.Snapshot.RoundTrip.{from_snapshot-to_snapshot}
use intelligent_rag_framewor.Snapshot.Sessions.{
  run-IsKeyed, migrate_lem, Upgraded, as_version_1, from_snapshot-as_version_1,
}
use intelligent_rag_framewor.Tests.Scenario.{state, calls, calls-state, state-IsValid}
use intelligent_rag_framewor.Tests.Rules.{fixed_numbers}

pub state-IsKeyed : IsKeyed state
state-IsKeyed = rw (sym calls-state) (run-IsKeyed calls "token")

pub state-RulesAreUnit : RulesAreUnit state
unfolding lookup
state-RulesAreUnit = record {
  priors = λ k x h. ground arith;
  precisions = λ k x h. ground arith;
  rates = λ k x h. ground arith;
}

from_snapshot-to_snapshot_example :
    (t : Engine ℕ) × (from_snapshot "restored" (to_snapshot state) ≡ ok t)
    × SameStores state t
    × (t.state_identity_token ≡ "restored")
    × (t.state_revision ≡ pos 0)
from_snapshot-to_snapshot_example =
    from_snapshot-to_snapshot "restored" state state-IsValid state-IsKeyed state-RulesAreUnit

from_snapshot-as_version_1_example :
    (t : Engine ℕ) × (from_snapshot "restored" (as_version_1 (to_snapshot state)) ≡ ok t)
    × SameStores (record state { hint_evidence_types = [] }) t
from_snapshot-as_version_1_example =
    from_snapshot-as_version_1 "restored" state state-IsValid state-IsKeyed state-RulesAreUnit

abbrev versioned : Fields ℕ
versioned = Fields.field "schema_version" (Value.int (pos 3)) Fields.end

migrate_lem_example :
    (lookup_field "schema_version" versioned ≡ none
      → migrate_snapshot_to_current versioned ≡ raise value_error)
    × (lookup_field "schema_version" versioned ≡ some (Value.int (pos 3))
        → (pos 3 ≡ pos 1
            → (out : Fields ℕ) × (migrate_snapshot_to_current versioned ≡ ok out)
              × Upgraded versioned out)
          × (pos 3 ≡ pos 2 → migrate_snapshot_to_current versioned ≡ ok versioned)
          × (pos 3 ≢ pos 1
              → pos 3 ≢ pos 2
              → migrate_snapshot_to_current versioned ≡ raise value_error))
migrate_lem_example = migrate_lem versioned (pos 3)

abbrev restored : Engine ℕ
restored =
    (from_snapshot-to_snapshot "restored" state state-IsValid state-IsKeyed state-RulesAreUnit).0

restored_from : from_snapshot "restored" (to_snapshot state) ≡ ok restored
restored_from =
    (from_snapshot-to_snapshot "restored" state state-IsValid state-IsKeyed state-RulesAreUnit).1

from_snapshot-HasReferences_example :
    HasReferences (state_view restored)
    × Each (λ _ c. IsStatus c.status) restored.claims
    × (restored.state_identity_token ≡ "restored")
    × (restored.state_revision ≡ pos 0)
from_snapshot-HasReferences_example =
    from_snapshot-HasReferences "restored" (to_snapshot state) restored restored_from

resume-IsValid_example :
    (t : Engine ℕ) × (from_snapshot "restored" (to_snapshot (run calls (init "token"))) ≡ ok t)
    × IsValid (run calls t)
    × IsKeyed (run calls t)
resume-IsValid_example =
    resume-IsValid calls calls "token" "restored" (rw calls-state state-RulesAreUnit)
