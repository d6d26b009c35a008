-- ===== src/Session/Dedup.antt =====
-- Deduplication of gaps (ragcore/_engine/gaps.py) over a session of calls.
use intelligent_rag_framewor.Prelude.{
  ℤ, pos, ◌+ℤ◌, ◌≡◌, true, ok, some, inl, inr, List, arith, int_eq, quad_eq, Option-cases,
}
use intelligent_rag_framewor.Prelude.Dict.{lookup, lookup-insert_self}
use intelligent_rag_framewor.Floats.{Floats, in_unit}
use intelligent_rag_framewor.Types.{Claim, score_value}
use intelligent_rag_framewor.Engine.State.{Engine, last_id}
use intelligent_rag_framewor.Engine.Gaps.{add_gap, reuse_gap, create_gap}
use intelligent_rag_framewor.Session.{Op, run}
use intelligent_rag_framewor.Session.Refinement.{add_gap-Steps}
use intelligent_rag_framewor.Session.Memory.{run-Keeps}
use intelligent_rag_framewor.Spec.Permanence.{Keeps}
use intelligent_rag_framewor.Spec.Valid.{IsValid}
use intelligent_rag_framewor.Spec.Valid.Preserved.{Steps-IsValid}

module _ {F : Type 0} ⦃fl : Floats F⦄ (s : Engine F) where
  reuse_gap_result : (c g : ℤ) → (reuse_gap c g s).0 ≡ ok g
  unfolding reuse_gap
  reuse_gap_result c g = ground arith

  reuse_gap_index : (c g : ℤ) → (reuse_gap c g s).1.gap_dedup_index ≡ s.gap_dedup_index
  unfolding reuse_gap
  reuse_gap_index c g = ground arith

  -- Where `add_gap` returns, the dedup index holds the id that it returns.
  add_gap_indexed :
      (c t e : ℤ) (x : F) (r : ℤ) (claim : Claim F) (g : ℤ)
      → lookup c s.claims ≡ some claim
      → (add_gap c t e x r s).0 ≡ ok g
      → lookup (claim.subject_id, r, t, e) (add_gap c t e x r s).1.gap_dedup_index ≡ some g
  unfolding add_gap create_gap
  add_gap_indexed c t e x r claim g known returned =
      elim (Option-cases (lookup (claim.subject_id, r, t, e) s.gap_dedup_index)) [
        | inl miss ↦ ground (
          arith,
          lookup-insert_self (claim.subject_id, r, t, e) (last_id "gap" s +ℤ pos 1)
              s.gap_dedup_index,
        )
        | inr (h, hit) ↦ ground (arith, reuse_gap_result c h, reuse_gap_index c h)
      ]

  add_gap_again :
      (c t e : ℤ) (x : F) (r : ℤ) (claim : Claim F) (g : ℤ)
      → lookup c s.claims ≡ some claim
      → lookup (claim.subject_id, r, t, e) s.gap_dedup_index ≡ some g
      → in_unit x ≡ true
      → (add_gap c t e x r s).0 ≡ ok g
  unfolding add_gap score_value
  add_gap_again c t e x r claim g known hit unit = ground (arith, reuse_gap_result c g)

module _ {F : Type 0} ⦃fl : Floats F⦄ where
  -- On a valid engine, a gap that `add_gap` has returned is returned again, after every session, to
  -- every claim on the same subject that asks with the same rule, gap type and wanted evidence type,
  -- whatever severity in the unit interval it gives.
  pub add_gap-deduplicates :
      (s : Engine F) (v : IsValid s) (c t e : ℤ) (x : F) (r : ℤ) (claim : Claim F) (g : ℤ)
      → lookup c s.claims ≡ some claim
      → (add_gap c t e x r s).0 ≡ ok g
      → (ops : List (Op F)) (c' : ℤ) (claim' : Claim F) (y : F)
      → lookup c' (run ops (add_gap c t e x r s).1).claims ≡ some claim'
      → claim'.subject_id ≡ claim.subject_id
      → in_unit y ≡ true
      → (add_gap c' t e y r (run ops (add_gap c t e x r s).1)).0 ≡ ok g
  add_gap-deduplicates s v c t e x r claim g known returned ops c' claim' y known' same unit =
      let after : Engine F = (add_gap c t e x r s).1 in
      let valid : IsValid after = Steps-IsValid (add_gap-Steps s c t e x r) v in
      let keeps : Keeps after (run ops after) = run-Keeps ops after valid in
      let hit : lookup (claim'.subject_id, r, t, e) (run ops after).gap_dedup_index ≡ some g =
        rw same (
          keeps.gap_dedup_index (claim.subject_id, r, t, e) g
            (add_gap_indexed s c t e x r claim g known returned)) in
      add_gap_again (run ops after) c' t e y r claim' g known' hit unit
