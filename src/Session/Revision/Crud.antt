-- ===== src/Session/Revision/Crud.antt =====
-- What the calls of ragcore/_engine/crud.py and relations.py do to the revision.
use intelligent_rag_framewor.Prelude.{ℤ, pos, ◌+ℤ◌, ◌≡◌, ◌⊎◌, Result, ok, raise, arith}
use intelligent_rag_framewor.Floats.{Floats}
use intelligent_rag_framewor.Engine.State.{Engine, id_exists}
use intelligent_rag_framewor.Engine.Crud
use intelligent_rag_framewor.Engine.Relations

-- A raise left everything as it was; a return left everything, or advanced the revision by one.
abbrev pub Counted : {F A : Type 0} → Engine F → Result A × Engine F → Type 0
Counted s (raise e, s') = s' ≡ s
Counted s (ok a, s') = (s' ≡ s) ⊎ (s'.state_revision ≡ s.state_revision +ℤ pos 1)

module _ {F : Type 0} (s : Engine F) where
  pub add_entity-Counted : (t f : ℤ) → Counted s (Crud.add_entity t f s)
  unfolding Crud.add_entity
  add_entity-Counted t f = ground arith

  pub add_observation-Counted : (e r t k : ℤ) → Counted s (Crud.add_observation e r t k s)
  unfolding Crud.add_observation
  add_observation-Counted e r t k = ground arith

  pub add_relation-Counted :
      (k i l j t r n : ℤ) → Counted s (Relations.add_relation k i l j t r n s)
  unfolding Relations.add_relation id_exists
  add_relation-Counted k i l j t r n = ground arith

module _ {F : Type 0} ⦃fl : Floats F⦄ (s : Engine F) where
  pub add_claim-Counted :
      (u t r v n : ℤ) (b : F) (st f : ℤ) → Counted s (Crud.add_claim u t r v n b st f s)
  unfolding Crud.add_claim
  add_claim-Counted u t r v n b st f = ground arith

  pub add_evidence-Counted : (c r t : ℤ) (x : F) → Counted s (Crud.add_evidence c r t x s)
  unfolding Crud.add_evidence
  add_evidence-Counted c r t x = ground arith
