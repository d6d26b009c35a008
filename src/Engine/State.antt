-- ===== src/Engine/State.antt =====
-- The core of `Engine` (ragcore/engine.py): the stores, id allocation, revision and guards, and
-- the calls that read and write them. What was written before a raise stays written, so a call
-- gives back the state beside the result.
use intelligent_rag_framewor.Prelude.{
  ℤ, pos, ◌+ℤ◌, String, Bool, not, Option, none, some, List, [], Result, ok, raise, Error,
  key_error, value_error, if◌then◌else◌, ◌==◌, int_eq, string_eq, pair_eq, quad_eq,
}
use intelligent_rag_framewor.Prelude.Dict.{Dict, contains, insert, get_or}
use intelligent_rag_framewor.Types.{
  Entity, Observation, Claim, Evidence, Relation, Gap, RuleDefinition, RuleStats,
  ClaimLifecycleEvent, EngineStateIdentity, engine_state_identity,
}
use intelligent_rag_framewor.Types.Kind

pub record Engine (F : Type 0) : Type 0 where
  pub next_id : Dict String ℤ
  pub entities : Dict ℤ Entity
  pub observations : Dict ℤ Observation
  pub claims : Dict ℤ (Claim F)
  pub evidences : Dict ℤ (Evidence F)
  pub relations : Dict ℤ Relation
  pub gaps : Dict ℤ (Gap F)
  pub rule_definitions : Dict (ℤ × ℤ) (RuleDefinition F)
  pub rule_stats : Dict (ℤ × ℤ) (RuleStats F)
  pub gap_dedup_index : Dict (ℤ × ℤ × ℤ × ℤ) ℤ
  pub claim_gap_refs : Dict ℤ (List ℤ)
  pub gap_resolutions : Dict ℤ ℤ
  pub contradictions : Dict ℤ (List ℤ)
  pub resolved_contradictions : Dict ℤ (List ℤ)
  pub lifecycle_seq : ℤ
  pub claim_lifecycle_events : Dict ℤ (List ClaimLifecycleEvent)
  pub hint_evidence_types : List ℤ
  pub state_identity_token : String
  pub state_revision : ℤ

-- `Engine()`; the token is the one that `uuid4().hex` draws
unfoldable pub init : {F : Type 0} → String → Engine F
init token = record {
  next_id = [];
  entities = [];
  observations = [];
  claims = [];
  evidences = [];
  relations = [];
  gaps = [];
  rule_definitions = [];
  rule_stats = [];
  gap_dedup_index = [];
  claim_gap_refs = [];
  gap_resolutions = [];
  contradictions = [];
  resolved_contradictions = [];
  lifecycle_seq = pos 0;
  claim_lifecycle_events = [];
  hint_evidence_types = [];
  state_identity_token = token;
  state_revision = pos 0;
}

abbrev pub Call : Type 0 → Type 0 → Type 0
Call F A = Engine F → Result A × Engine F

module _ {F A : Type 0} where
  abbrev pub pure : A → Call F A
  pure a s = (ok a, s)

  abbrev pub fail : Error → Call F A
  fail e s = (raise e, s)

  abbrev pub lift : Result A → Call F A
  lift r s = (r, s)

  abbrev pub gets : (Engine F → A) → Call F A
  gets f s = (ok (f s), s)

  -- `d[k]`, for what a read of a dict gives
  abbrev pub item : Option A → Call F A
  item none = fail key_error
  item (some a) = pure a

infixl 5 ◌>>=◌ ◌>>◌
abbrev pub ◌>>=◌ : {F A B : Type 0} → Call F A → (A → Call F B) → Call F B
◌>>=◌ m f s = let (r, s') = m s in elim r [ ok a ↦ f a s' | raise e ↦ (raise e, s') ]

abbrev pub ◌>>◌ : {F B : Type 0} → Call F (Unit {0}) → Call F B → Call F B
m >> k = m >>= λ _. k

module _ {F : Type 0} where
  abbrev pub modify : (Engine F → Engine F) → Call F (Unit {0})
  modify f s = (ok tt, f s)

  abbrev pub fail_if : Bool → Error → Call F (Unit {0})
  fail_if test e s = (if test then raise e else ok tt, s)

  -- `self._next_id.get(kind, 0)`
  abbrev pub last_id : String → Engine F → ℤ
  last_id kind s = get_or s.next_id kind (pos 0)

  unfoldable pub allocate_id : String → Call F ℤ
  allocate_id kind s =
      let next_id = last_id kind s +ℤ pos 1 in
      (ok next_id, record s { next_id = insert kind next_id s.next_id })

  unfoldable pub advance_state_revision : Call F (Unit {0})
  advance_state_revision s = (ok tt, record s { state_revision = s.state_revision +ℤ pos 1 })

  unfoldable pub state_identity : Call F EngineStateIdentity
  state_identity s = (engine_state_identity s.state_identity_token s.state_revision, s)

  -- `_id_exists`, with the table of `_storage_for_kind`
  unfoldable pub id_exists : ℤ → ℤ → Call F Bool
  id_exists kind target_id s =
      if kind == Kind.entity
      then (ok (contains target_id s.entities), s)
      else if kind == Kind.observation
      then (ok (contains target_id s.observations), s)
      else if kind == Kind.claim
      then (ok (contains target_id s.claims), s)
      else if kind == Kind.evidence
      then (ok (contains target_id s.evidences), s)
      else if kind == Kind.relation
      then (ok (contains target_id s.relations), s)
      else if kind == Kind.gap
      then (ok (contains target_id s.gaps), s)
      else (raise value_error, s)

  unfoldable pub assert_entity_exists : ℤ → Call F (Unit {0})
  assert_entity_exists entity_id s = fail_if (not (contains entity_id s.entities)) key_error s

  unfoldable pub assert_claim_exists : ℤ → Call F (Unit {0})
  assert_claim_exists claim_id s = fail_if (not (contains claim_id s.claims)) key_error s

  unfoldable pub assert_evidence_exists : ℤ → Call F (Unit {0})
  assert_evidence_exists evidence_id s =
      fail_if (not (contains evidence_id s.evidences)) key_error s

  unfoldable pub assert_gap_exists : ℤ → Call F (Unit {0})
  assert_gap_exists gap_id s = fail_if (not (contains gap_id s.gaps)) key_error s

  unfoldable pub assert_rule_pair_exists : ℤ → ℤ → Call F (Unit {0})
  assert_rule_pair_exists rule_id rule_version s =
      fail_if (not (contains (rule_id, rule_version) s.rule_definitions)) key_error s

  unfoldable pub assert_rule_stats_pair_exists : ℤ → ℤ → Call F (Unit {0})
  assert_rule_stats_pair_exists rule_id rule_version s =
      fail_if (not (contains (rule_id, rule_version) s.rule_stats)) key_error s
