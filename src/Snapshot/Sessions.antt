-- ===== src/Snapshot/Sessions.antt =====
-- Snapshots within a session, and snapshots of schema version 1 (ragcore/_engine/snapshot.py and
-- ragcore/_engine/serialization.py).
use intelligent_rag_framewor.Prelude.{
  ◌≡◌, ◌≢◌, refl, ◌∙◌, ℤ, pos, String, sort, sort_by, none, some, ok, raise, value_error, List, [],
  arith, eqb_ℤ, eqb_ℤ_iff, int_eq, string_eq, ◌==◌, if◌then◌else◌,
}
use intelligent_rag_framewor.Floats.{Floats}
use intelligent_rag_framewor.Value.{Value, Values, Fields}
use intelligent_rag_framewor.Value.Comparison.{Numbers, lookup_field}
use intelligent_rag_framewor.Engine.State.{Engine, init}
use intelligent_rag_framewor.Session.{Op, run}
use intelligent_rag_framewor.Session.Refinement.{run-Steps}
use intelligent_rag_framewor.Spec.Valid.{IsValid}
use intelligent_rag_framewor.Spec.Valid.Start.{init-IsValid}
use intelligent_rag_framewor.Spec.Keyed.{IsKeyed, init-IsKeyed, Steps-IsKeyed}
use intelligent_rag_framewor.Snapshot.{to_snapshot, from_snapshot, state_view}
use intelligent_rag_framewor.Snapshot.Encode.{encode_snapshot}
use intelligent_rag_framewor.Snapshot.Decode.{
  set_field, migrate_snapshot_to_current, migrate_snapshot_v1_to_v2, validate_and_decode_snapshot,
}
use intelligent_rag_framewor.Snapshot.Stores.{hashable}
use intelligent_rag_framewor.Snapshot.Canonical.{SameStores, RulesAreUnit}
use intelligent_rag_framewor.Snapshot.ReferenceTrips.{value_eq-int}
use intelligent_rag_framewor.Snapshot.RoundTrip.{from_snapshot-to_snapshot, current_migrates}

module _ {F : Type 0} ⦃fl : Floats F⦄ where
  -- After every session of a new engine, raises included, no dict holds a key twice, and every claim
  -- with a set of resolved contradictions has a set of contradictions.
  pub run-IsKeyed : (ops : List (Op F)) (token : String) → IsKeyed (run ops (init {F = F} token))
  run-IsKeyed ops token =
      Steps-IsKeyed (run-Steps ops (init token) (init-IsValid token)) (init-IsKeyed token)

module _ {F : Type 0} where
  abbrev pub drop_field : String → Fields F → Fields F
  drop_field k Fields.end = Fields.end
  drop_field k (Fields.field j v fs) =
      let rest = drop_field k fs in if j == k then rest else Fields.field j v rest

  -- the snapshot as schema version 1 has it: with no hint types
  abbrev pub as_version_1 : Value F → Value F
  as_version_1 (Value.mapping fs) =
      Value.mapping
        (set_field "schema_version" (Value.int (pos 1)) (drop_field "hint_evidence_types" fs))
  as_version_1 v = v

  lookup-set_field :
      (k j : String) (v : Value F) (fs : Fields F)
      → lookup_field j (set_field k v fs) ≡ (if k == j then some v else lookup_field j fs)
  unfolding set_field
  lookup-set_field k j v Fields.end = refl
  lookup-set_field k j v (Fields.field i w fs) = ground (
    arith,
    string_eq.test_iff k j,
    string_eq.test_iff i k,
    string_eq.test_iff i j,
    lookup-set_field k j v fs,
  )

module _ {F : Type 0} ⦃nums : Numbers F⦄ where
  -- What version 1 becomes.
  abbrev pub Upgraded : Fields F → Fields F → Type 0
  Upgraded fs out =
      (lookup_field "schema_version" out ≡ some (Value.int (pos 2)))
      × (lookup_field "hint_evidence_types" out ≡ some (Value.list Values.nil))
      × ((k : String)
          → k ≢ "schema_version"
          → k ≢ "hint_evidence_types"
          → lookup_field k out ≡ lookup_field k fs)

  v1-Upgraded : (fs : Fields F) → Upgraded fs (migrate_snapshot_v1_to_v2 fs)
  unfolding migrate_snapshot_v1_to_v2
  v1-Upgraded fs =
      let first : Fields F = set_field "schema_version" (Value.int (pos 2)) fs in
      (
        lookup-set_field "hint_evidence_types" "schema_version" (Value.list Values.nil) first
            ∙ lookup-set_field "schema_version" "schema_version" (Value.int (pos 2)) fs,
        lookup-set_field "hint_evidence_types" "hint_evidence_types" (Value.list Values.nil) first,
        λ k a b. ground (
          arith,
          lookup-set_field "hint_evidence_types" k (Value.list Values.nil) first,
          lookup-set_field "schema_version" k (Value.int (pos 2)) fs,
          string_eq.test_iff "hint_evidence_types" k,
          string_eq.test_iff "schema_version" k,
        ),
      )

  -- A snapshot whose schema version is an int n: for 1 the migration sets the version to 2 and the
  -- hint types to the empty list and leaves every other key, for 2 it changes nothing, and for
  -- every other n it raises ValueError; so it does with no version.
  pub migrate_lem :
      (fs : Fields F) (n : ℤ)
      → (lookup_field "schema_version" fs ≡ none
          → migrate_snapshot_to_current fs ≡ raise value_error)
        × (lookup_field "schema_version" fs ≡ some (Value.int n)
            → (n ≡ pos 1
                → (out : Fields F) × (migrate_snapshot_to_current fs ≡ ok out) × Upgraded fs out)
              × (n ≡ pos 2 → migrate_snapshot_to_current fs ≡ ok fs)
              × (n ≢ pos 1 → n ≢ pos 2 → migrate_snapshot_to_current fs ≡ raise value_error))
  unfolding migrate_snapshot_to_current hashable
  migrate_lem fs n = (
    λ h. ground arith,
    λ h. (
      λ e. (
        migrate_snapshot_v1_to_v2 fs,
        ground (arith, value_eq-int F n (pos 1), eqb_ℤ_iff n (pos 1)),
        v1-Upgraded fs,
      ),
      λ e. ground (
        arith,
        value_eq-int F n (pos 1),
        value_eq-int F n (pos 2),
        eqb_ℤ_iff n (pos 1),
        eqb_ℤ_iff n (pos 2),
      ),
      λ a b. ground (
        arith,
        value_eq-int F n (pos 1),
        value_eq-int F n (pos 2),
        eqb_ℤ_iff n (pos 1),
        eqb_ℤ_iff n (pos 2),
      ),
    ),
  )

module _ {F : Type 0} ⦃fl : Floats F⦄ ⦃nums : Numbers F⦄ where
  abbrev without_hints : Engine F → Engine F
  without_hints s = record s { hint_evidence_types = [] }

  migrate_old :
      (s : Engine F)
      → migrate_snapshot_to_current (
          set_field "schema_version"
            (Value.int (pos 1))
            (drop_field "hint_evidence_types" (encode_snapshot (state_view s))))
        ≡ ok (encode_snapshot (state_view (without_hints s)))
  unfolding migrate_snapshot_to_current migrate_snapshot_v1_to_v2 hashable encode_snapshot
      state_view set_field eqb_ℤ sort sort_by
  migrate_old s = rw (value_eq-int F (pos 1) (pos 1)) refl

  old_snapshot :
      (token : String) (s : Engine F)
      → from_snapshot token (as_version_1 (to_snapshot s))
        ≡ from_snapshot token (to_snapshot (without_hints s))
  unfolding from_snapshot to_snapshot validate_and_decode_snapshot
  old_snapshot token s = rw (migrate_old s, current_migrates (without_hints s)) refl

  -- A snapshot of schema version 1, of an engine that satisfies the invariants of a session and whose
  -- rules have scores in the unit interval, is restored to an engine in which every store reads as in
  -- the first one, but for the hint types, of which there are none.
  pub from_snapshot-as_version_1 :
      (token : String) (s : Engine F)
      → IsValid s
      → IsKeyed s
      → RulesAreUnit s
      → (t : Engine F) × (from_snapshot token (as_version_1 (to_snapshot s)) ≡ ok t)
        × SameStores (record s { hint_evidence_types = [] }) t
  from_snapshot-as_version_1 token s valid keyed rules =
      let (t, restored, same, _, _) =
        from_snapshot-to_snapshot token (without_hints s) (assumption) (assumption) (assumption) in
      (t, old_snapshot token s ∙ restored, same)
