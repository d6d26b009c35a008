-- ===== src/Spec/Trail.antt =====
-- The audit trail of ragcore/_engine/lifecycle_history.py along the steps of the abstract machine.
use intelligent_rag_framewor.Prelude.{
  ℤ, pos, ◌+ℤ◌, ◌≤ℤ◌, ◌<ℤ◌, String, ◌≡◌, refl, sym, ◌⊎◌, inl, inr, none, some, List, [], ◌∷◌, ◌++◌,
  arith, int_eq, string_eq, int_laws, Bool-cases, eqb_ℤ, eqb_ℤ_iff,
}
use intelligent_rag_framewor.Prelude.Dict.{lookup, get_or, lookup-insert, get_or-insert}
use intelligent_rag_framewor.Floats.{Floats}
use intelligent_rag_framewor.Types.{Claim, ClaimLifecycleEvent}
use intelligent_rag_framewor.Types.ClaimStatus
use intelligent_rag_framewor.Engine.State.{Engine, last_id}
use intelligent_rag_framewor.Spec.{Step, Steps, Edge, event_of, with_status, with_claim}
use intelligent_rag_framewor.Spec.Valid.{IsValid}
use intelligent_rag_framewor.Spec.Valid.Preserved.{Steps-IsValid}
use intelligent_rag_framewor.Spec.Permanence.{fresh_lem}

-- The six moves of a claim, with the label of each.
abbrev pub IsMove : ℤ → ℤ → String → Type 0
IsMove a b l =
    ((a ≡ ClaimStatus.candidate) × (b ≡ ClaimStatus.confirmed) × (l ≡ "confirm_if_ready"))
    ⊎ (((a ≡ ClaimStatus.candidate) × (b ≡ ClaimStatus.refuted) × (l ≡ "refute_if_ready"))
        ⊎ (((a ≡ ClaimStatus.confirmed) × (b ≡ ClaimStatus.disputed) × (l ≡ "dispute_if_ready"))
            ⊎ (((a ≡ ClaimStatus.disputed)
                  × (b ≡ ClaimStatus.confirmed)
                  × (l ≡ "resolve_disputed_if_ready"))
                ⊎ (((a ≡ ClaimStatus.disputed)
                      × (b ≡ ClaimStatus.refuted)
                      × (l ≡ "refute_disputed_if_ready"))
                    ⊎ ((a ≡ ClaimStatus.disputed)
                        × (b ≡ ClaimStatus.refuted)
                        × (l ≡ "refute_disputed_by_freshness_if_ready"))))))

-- The events lead from status `a` to status `b`, each from where the one before it ended, with
-- sequence numbers that rise from above `lo` up to `hi` at most.
abbrev pub Chain : ℤ → ℤ → ℤ → List ClaimLifecycleEvent → ℤ → ℤ → Type 0
Chain c lo a [] hi b = (a ≡ b) × (lo ≤ℤ hi)
Chain c lo a (e ∷ es) hi b =
    (e.claim_id ≡ c)
    × (lo <ℤ e.seq)
    × (e.from_status ≡ a)
    × IsMove a e.to_status e.transition
    × Chain c e.seq e.to_status es hi b

module _ {F : Type 0} where
  pub record HasTrail (s : Engine F) : Type 0 where
    pub counted : pos 0 ≤ℤ s.lifecycle_seq
    pub chained :
        (c : ℤ) (x : Claim F)
        → lookup c s.claims ≡ some x
        → (a : ℤ) × Chain c
            (pos 0)
            a
            (get_or s.claim_lifecycle_events c [])
            s.lifecycle_seq
            x.status
    pub untouched : (c : ℤ) → lookup c s.claims ≡ none → get_or s.claim_lifecycle_events c [] ≡ []

Chain-later :
    (c lo a : ℤ) (es : List ClaimLifecycleEvent) (hi hi' b : ℤ)
    → hi ≤ℤ hi'
    → Chain c lo a es hi b
    → Chain c lo a es hi' b
Chain-later c lo a [] hi hi' b le (same, below) = (same, omega arith)
Chain-later c lo a (e ∷ es) hi hi' b le (own, up, from, move, rest) =
    (own, up, from, move, Chain-later c e.seq e.to_status es hi hi' b le rest)

Chain-append :
    (c lo a : ℤ) (es : List ClaimLifecycleEvent) (hi b to : ℤ) (label : String)
    → Chain c lo a es hi b
    → IsMove b to label
    → Chain c lo a
        (es
          ++ record {
            seq = hi +ℤ pos 1;
            claim_id = c;
            from_status = b;
            to_status = to;
            transition = label;
          }
            ∷ [])
        (hi +ℤ pos 1)
        to
Chain-append c lo a [] hi b to label (same, below) move =
    (refl, omega (int_laws, below), ground arith, ground (arith, same, move), (refl, omega arith))
Chain-append c lo a (e ∷ es) hi b to label (own, up, from, step, rest) move =
    (own, up, from, step, Chain-append c e.seq e.to_status es hi b to label rest move)

module _ {F : Type 0} ⦃fl : Floats F⦄ where
  Edge-IsMove : {s : Engine F} {c a b : ℤ} {l : String} → Edge s c a b l → IsMove a b l
  Edge-IsMove (Edge.confirm a b l _ _) = inl (a, b, l)
  Edge-IsMove (Edge.refute a b l _) = inr (inl (a, b, l))
  Edge-IsMove (Edge.dispute a b l _) = inr (inr (inl (a, b, l)))
  Edge-IsMove (Edge.resolve_disputed a b l _) = inr (inr (inr (inl (a, b, l))))
  Edge-IsMove (Edge.refute_disputed _ a b l _) = inr (inr (inr (inr (inl (a, b, l)))))
  Edge-IsMove (Edge.refute_by_freshness _ a b l _ _) = inr (inr (inr (inr (inr (a, b, l)))))

  new_claim_HasTrail :
      (s : Engine F) (x : Claim F)
      → lookup x.id s.claims ≡ none
      → HasTrail s
      → HasTrail (with_claim s x)
  new_claim_HasTrail s x free h = record {
    counted = h.counted;
    chained = λ c y found. elim (Bool-cases (eqb_ℤ x.id c)) [
      | inl here ↦
          let same_id : x.id ≡ c = ground (arith, eqb_ℤ_iff x.id c) in
          let none_yet : get_or s.claim_lifecycle_events c [] ≡ [] =
            h.untouched c (ground (arith, free, same_id)) in
          (y.status, rw none_yet (refl, h.counted))
      | inr other ↦ h.chained c y (ground (arith, lookup-insert x.id c x s.claims))
    ];
    untouched = λ c absent. h.untouched c (ground (arith, lookup-insert x.id c x s.claims));
  }

  transit_HasTrail :
      (s : Engine F) (c : ℤ) (claim : Claim F) (to : ℤ) (label : String)
      → lookup c s.claims ≡ some claim
      → IsMove claim.status to label
      → HasTrail s
      → HasTrail (with_status s c claim to label)
  transit_HasTrail s c claim to label known move h = record {
    counted = omega (int_laws, h.counted);
    chained = λ k y found. elim (Bool-cases (eqb_ℤ c k)) [
      | inl here ↦
          let same_id : c ≡ k = ground (arith, eqb_ℤ_iff c k) in
          let new : y.status ≡ to =
            ground
              (arith, lookup-insert c k (record claim { status = to }) s.claims, eqb_ℤ_iff c k) in
          let (a, chain) = h.chained c claim known in
          (
            a,
            rw (get_or-insert, here, new, sym same_id)
                (Chain-append c (pos 0) a (get_or s.claim_lifecycle_events c []) s.lifecycle_seq
                  claim.status to label chain move),
          )
      | inr other ↦
          let (a, chain) =
            h.chained k y
              (ground (arith, lookup-insert c k (record claim { status = to }) s.claims)) in
          (
            a,
            rw (get_or-insert, other)
                (Chain-later k (pos 0) a (get_or s.claim_lifecycle_events k []) s.lifecycle_seq
                  (s.lifecycle_seq +ℤ pos 1) y.status (omega int_laws) chain),
          )
    ];
    untouched = λ k absent. ground (
      arith,
      known,
      lookup-insert c k (record claim { status = to }) s.claims,
      eqb_ℤ_iff c k,
      get_or-insert c k
          (get_or s.claim_lifecycle_events c [] ++ event_of s c claim.status to label ∷ []) []
          s.claim_lifecycle_events,
      h.untouched k,
    );
  }

  step_HasTrail : {s t : Engine F} → Step s t → IsValid s → HasTrail s → HasTrail t
  step_HasTrail (Step.add_entity _ _) v h = assumption
  step_HasTrail (Step.add_observation _ _ _) v h = assumption
  step_HasTrail {s} (Step.add_claim x fresh _ _ _) v h =
      new_claim_HasTrail s x
        (fresh_lem (λ (y : Claim F). y.id) (last_id "claim" s) x.id s.claims v.claim_ids fresh) h
  step_HasTrail (Step.add_evidence _ _ _ _) v h = assumption
  step_HasTrail (Step.add_relation _ _ _ _) v h = assumption
  step_HasTrail (Step.add_gap _ _ _ _ _ _) v h = assumption
  step_HasTrail (Step.refer _ _ _ _ _ _ _ _) v h = assumption
  step_HasTrail (Step.resolve _ _ _ _ _ _ _ _ _) v h = assumption
  step_HasTrail (Step.contradict _ _ _ _) v h = assumption
  step_HasTrail (Step.settle _ _ _ _) v h = assumption
  step_HasTrail {s} (Step.transit c claim to label known edge) v h =
      transit_HasTrail s c claim to label known (Edge-IsMove edge) h
  step_HasTrail (Step.register_rule _ _ _) v h = assumption
  step_HasTrail (Step.update_stats _ _ _ _) v h = assumption
  step_HasTrail (Step.set_hints _) v h = assumption
  step_HasTrail Step.advance v h = assumption

  pub Steps-HasTrail : {s t : Engine F} → Steps s t → IsValid s → HasTrail s → HasTrail t
  Steps-HasTrail Steps.here v h = h
  Steps-HasTrail (Steps.next p st) v h = step_HasTrail st (Steps-IsValid p v) (Steps-HasTrail p v h)
