-- ===== src/Runtime/Calls.antt =====
-- What the calls that a firing of ragcore/rule_runtime.py makes come to, one by one.
use intelligent_rag_framewor.Prelude.{
  ℤ, pos, ◌+ℤ◌, ◌≡◌, refl, true, inl, inr, ◌⊎◌, none, List, [], ◌∷◌, Error, key_error, Result, ok,
  raise, arith, int_eq, string_eq, pair_eq, quad_eq, Result-cases, Option-cases,
}
use intelligent_rag_framewor.Prelude.Dict.{lookup, contains, lookup-insert_self}
use intelligent_rag_framewor.Floats.{Floats, in_unit}
use intelligent_rag_framewor.Types.{RuleStats, score_value}
use intelligent_rag_framewor.Engine.State.{Engine, last_id}
use intelligent_rag_framewor.Engine.Crud.{add_claim, validate_claim_status_admission}
use intelligent_rag_framewor.Engine.Gaps.{add_gap, reuse_gap, create_gap}
use intelligent_rag_framewor.Engine.Rules.{get_rule_stats, update_rule_stats}
use intelligent_rag_framewor.Runtime.{add_gaps, default_gap_severity, gap_type_missing_evidence}

module _ {F : Type 0} ⦃fl : Floats F⦄ (s : Engine F) where
  -- `add_claim` raises and changes nothing, or stores a claim and keeps the rule statistics.
  pub add_claim_cases :
      (u t r v n : ℤ) (b : F) (st f : ℤ)
      → ((e : Error) × (add_claim u t r v n b st f s ≡ (raise e, s)))
        ⊎ ((c : ℤ) × ((add_claim u t r v n b st f s).0 ≡ ok c)
            × (contains c (add_claim u t r v n b st f s).1.claims ≡ true)
            × ((add_claim u t r v n b st f s).1.rule_stats ≡ s.rule_stats))
  unfolding add_claim score_value validate_claim_status_admission
  add_claim_cases u t r v n b st f = elim (Result-cases (add_claim u t r v n b st f s).0) [
    | inl (c, done) ↦ inr (
      c,
      done,
      ground (
        arith,
        lookup-insert_self (last_id "claim" s +ℤ pos 1)
            (record {
              id = last_id "claim" s +ℤ pos 1;
              subject_id = u;
              type = t;
              status = st;
              created_by_rule = r;
              created_by_rule_version = v;
              reason_code = n;
              base_confidence = record { value = b };
              flags = f;
            })
            s.claims,
      ),
      ground arith,
    )
    | inr (e, failed) ↦ inl (e, ground arith)
  ]

  abbrev AddsGap : ℤ → Result ℤ × Engine F → Type 0
  AddsGap c (r, t) =
      (g : ℤ) × (r ≡ ok g) × (contains c t.claims ≡ true) × (t.rule_stats ≡ s.rule_stats)

  reuse_gap_claims : (c g : ℤ) → (reuse_gap c g s).1.claims ≡ s.claims
  unfolding reuse_gap
  reuse_gap_claims c g = ground arith

  reuse_gap_stats : (c g : ℤ) → (reuse_gap c g s).1.rule_stats ≡ s.rule_stats
  unfolding reuse_gap
  reuse_gap_stats c g = ground arith

  reuse_gap_result : (c g : ℤ) → (reuse_gap c g s).0 ≡ ok g
  unfolding reuse_gap
  reuse_gap_result c g = ground arith

  add_gap_keeps :
      (c t e : ℤ) (x : F) (r : ℤ)
      → ((add_gap c t e x r s).1.claims ≡ s.claims)
        × ((add_gap c t e x r s).1.rule_stats ≡ s.rule_stats)
  unfolding add_gap create_gap score_value
  add_gap_keeps c t e x r = elim (Option-cases (lookup c s.claims)) [
    | inl unknown ↦ (ground arith, ground arith)
    | inr (claim, known) ↦
        elim (Option-cases (lookup (claim.subject_id, r, t, e) s.gap_dedup_index)) [
          | inl miss ↦ (ground arith, ground arith)
          | inr (h, hit) ↦
              (ground (arith, reuse_gap_claims c h), ground (arith, reuse_gap_stats c h))
        ]
  ]

  add_gap_returns :
      (c t e : ℤ) (x : F) (r : ℤ) (failure : Error)
      → contains c s.claims ≡ true
      → in_unit x ≡ true
      → (add_gap c t e x r s).0 ≡ raise failure
      → ⊥
  unfolding add_gap create_gap score_value
  add_gap_returns c t e x r failure known unit failed = elim (Option-cases (lookup c s.claims)) [
    | inl unknown ↦ ground arith
    | inr (claim, found) ↦
        elim (Option-cases (lookup (claim.subject_id, r, t, e) s.gap_dedup_index)) [
          | inl miss ↦ ground arith
          | inr (h, hit) ↦ ground (arith, reuse_gap_result c h)
        ]
  ]

  -- `add_gap` returns on a known claim.
  add_gap_adds :
      (c t e : ℤ) (x : F) (r : ℤ)
      → contains c s.claims ≡ true
      → in_unit x ≡ true
      → AddsGap c (add_gap c t e x r s)
  unfolding add_gap create_gap score_value
  add_gap_adds c t e x r known unit =
      let (claims, stats) = add_gap_keeps c t e x r in
      elim (Result-cases (add_gap c t e x r s).0) [
        | inl (g, done) ↦ (g, done, rw claims known, stats)
        | inr (e', failed) ↦ absurd (add_gap_returns c t e x r e' known unit failed)
      ]

  pub update_rule_stats_returns :
      (r v n : ℤ)
      → contains (r, v) s.rule_stats ≡ true
      → (update_rule_stats r v n (pos 0) (pos 0) none none s).0 ≡ ok tt
  unfolding update_rule_stats
  update_rule_stats_returns r v n known = ground arith

  pub get_rule_stats_cases :
      (r v : ℤ)
      → (get_rule_stats r v s ≡ (raise key_error, s))
        ⊎ ((contains (r, v) s.rule_stats ≡ true)
            × ((x : RuleStats F) × (get_rule_stats r v s ≡ (ok x, s))))
  unfolding get_rule_stats
  get_rule_stats_cases r v = elim (Option-cases (lookup (r, v) s.rule_stats)) [
    | inl absent ↦ inl (ground arith)
    | inr (x, found) ↦ inr (ground arith, (x, ground arith))
  ]

module _ (F : Type 0) ⦃fl : Floats F⦄ where
  severity_is_unit : in_unit {F = F} default_gap_severity ≡ true
  severity_is_unit = ground (arith, fl.lit_mono 0 1 1 2, fl.lit_mono 1 2 1 1)

module _ {F : Type 0} ⦃fl : Floats F⦄ where
  -- The loop over the required evidence types returns.
  pub add_gaps_returns :
      (c r : ℤ) (types : List ℤ) (s : Engine F)
      → contains c s.claims ≡ true
      → (gs : List ℤ) × ((add_gaps c r types s).0 ≡ ok gs)
        × ((add_gaps c r types s).1.rule_stats ≡ s.rule_stats)
  unfolding add_gaps
  add_gaps_returns c r [] s known = ([], refl, refl)
  add_gaps_returns c r (e ∷ types) s known =
      let (g, done, still, stats) =
        add_gap_adds s c gap_type_missing_evidence e default_gap_severity r known
          (severity_is_unit F) in
      let (gs, rest, rest_stats) =
        add_gaps_returns c r types
          (add_gap c gap_type_missing_evidence e default_gap_severity r s).1 still in
      (g ∷ gs, ground arith, ground arith)
