-- ===== src/Session/Memory.antt =====
-- What a session of calls never takes back: the stores of ragcore/engine.py over time.
use intelligent_rag_framewor.Prelude.{ℤ, ◌≡◌, ◌≢◌, some, List, arith, int_eq, refl, sym}
use intelligent_rag_framewor.Prelude.Dict.{lookup}
use intelligent_rag_framewor.Floats.{Floats}
use intelligent_rag_framewor.Types.{Claim}
use intelligent_rag_framewor.Types.ClaimStatus
use intelligent_rag_framewor.Engine.State.{Engine}
use intelligent_rag_framewor.Session.{Op, run}
use intelligent_rag_framewor.Session.Refinement.{run-Steps}
use intelligent_rag_framewor.Spec.Permanence.{Keeps, Steps-Keeps}
use intelligent_rag_framewor.Spec.Valid.{IsValid}

module _ {F : Type 0} ⦃fl : Floats F⦄ (ops : List (Op F)) (s : Engine F) (v : IsValid s) where
  -- From a valid engine, no session changes or removes an entity, observation, evidence, relation,
  -- gap or rule definition, an entry of the dedup index, the evidence that resolved a gap, or a
  -- member of the sets of gap references, contradictions and settled contradictions. A claim keeps
  -- all its fields but the status, and the status moves from candidate to confirmed, disputed or
  -- refuted, and between confirmed, disputed and on to refuted.
  pub run-Keeps : Keeps s (run ops s)
  run-Keeps = Steps-Keeps (run-Steps ops s v) v

  -- From a valid engine, a refuted claim is the same claim, still refuted, after every session.
  pub run-refuted :
      (c : ℤ) (x : Claim F)
      → lookup c s.claims ≡ some x
      → x.status ≡ ClaimStatus.refuted
      → lookup c (run ops s).claims ≡ some x
  run-refuted c x known refuted =
      let keeps : Keeps s (run ops s) = run-Keeps in
      let (status, found, leads) = keeps.claims c x known in
      let same : x.status ≡ status = ground arith in rw (found, sym same) refl

  -- From a valid engine, a claim that is no candidate never becomes one.
  pub run-candidate :
      (c : ℤ) (x y : Claim F)
      → lookup c s.claims ≡ some x
      → x.status ≢ ClaimStatus.candidate
      → lookup c (run ops s).claims ≡ some y
      → y.status ≢ ClaimStatus.candidate
  run-candidate c x y known other after =
      let keeps : Keeps s (run ops s) = run-Keeps in
      let (status, found, leads) = keeps.claims c x known in ground arith
