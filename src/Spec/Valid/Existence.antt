-- ===== src/Spec/Valid/Existence.antt =====
-- An id that exists goes on existing.
use intelligent_rag_framewor.Prelude.{ℤ, String, arith, int_eq, string_eq}
use intelligent_rag_framewor.Prelude.Dict.{contains_mono}
use intelligent_rag_framewor.Types.{Entity, Observation, Claim, Evidence, Relation, Gap}
use intelligent_rag_framewor.Engine.State.{Engine}
use intelligent_rag_framewor.Spec.{
  Exists, with_entity, with_observation, with_claim, with_evidence, with_relation, with_gap,
  with_status,
}
use intelligent_rag_framewor.Spec.Valid.{Each}

module _ {F : Type 0} (s : Engine F) where
  pub entity_Exists : (x : Entity) (kind i : ℤ) → Exists kind i s → Exists kind i (with_entity s x)
  entity_Exists x kind i h = ground (arith, contains_mono x.id i x s.entities)

  pub observation_Exists :
      (x : Observation) (kind i : ℤ) → Exists kind i s → Exists kind i (with_observation s x)
  observation_Exists x kind i h = ground (arith, contains_mono x.id i x s.observations)

  pub claim_Exists : (x : Claim F) (kind i : ℤ) → Exists kind i s → Exists kind i (with_claim s x)
  claim_Exists x kind i h = ground (arith, contains_mono x.id i x s.claims)

  pub evidence_Exists :
      (x : Evidence F) (kind i : ℤ) → Exists kind i s → Exists kind i (with_evidence s x)
  evidence_Exists x kind i h = ground (arith, contains_mono x.id i x s.evidences)

  pub relation_Exists :
      (x : Relation) (kind i : ℤ) → Exists kind i s → Exists kind i (with_relation s x)
  relation_Exists x kind i h = ground (arith, contains_mono x.id i x s.relations)

  pub gap_Exists :
      (claim : Claim F) (g : Gap F) (kind i : ℤ)
      → Exists kind i s
      → Exists kind i (with_gap s claim g)
  gap_Exists claim g kind i h = ground (arith, contains_mono g.id i g s.gaps)

  pub transit_Exists :
      (c : ℤ) (claim : Claim F) (to : ℤ) (label : String) (kind i : ℤ)
      → Exists kind i s
      → Exists kind i (with_status s c claim to label)
  transit_Exists c claim to label kind i h =
      ground (arith, contains_mono c i (record claim { status = to }) s.claims)

  pub Each-Exists :
      (t : Engine F) (kind_of id_of : Relation → ℤ)
      → ((kind i : ℤ) → Exists kind i s → Exists kind i t)
      → Each (λ _ x. Exists (kind_of x) (id_of x) s) s.relations
      → Each (λ _ x. Exists (kind_of x) (id_of x) t) s.relations
  Each-Exists t kind_of id_of mono h j x found = mono (kind_of x) (id_of x) (h j x found)
