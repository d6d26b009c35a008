-- ===== src/Session/Edges.antt =====
-- The transitions of ragcore/_engine/lifecycle.py against the edges of the abstract machine: what the
-- machine allows, the methods do.
use intelligent_rag_framewor.Prelude.{
  ℤ, ◌≤ℤ◌, String, ◌≡◌, refl, sym, ◌∙◌, Bool, true, false, inl, inr, some, List, [], ◌∷◌, ok, arith,
  int_eq, string_eq, ◌==◌, if◌then◌else◌, eqb_ℤ_iff, all, elem, elem_head, elem_tail, elem-sort,
  elem-nil, is_empty, is_empty-sort, sort, Option-cases, Bool-cases,
}
use intelligent_rag_framewor.Prelude.Dict.{lookup, contains, get_or}
use intelligent_rag_framewor.Floats.{Floats}
use intelligent_rag_framewor.Types.{Claim, Evidence}
use intelligent_rag_framewor.Types.ClaimStatus
use intelligent_rag_framewor.Engine.State.{Engine, Call}
use intelligent_rag_framewor.Engine.Lifecycle.{
  confirm_claim_if_ready, refute_claim_if_ready, dispute_claim_if_ready,
  resolve_disputed_claim_if_ready, refute_disputed_claim_if_ready,
  refute_disputed_claim_if_ready_by_freshness, refute_by_any, refute_by_first,
  active_contradictions_for_claim, active_contradictions_by_freshness,
}
use intelligent_rag_framewor.Session.Readiness.{
  freshest_lem, freshest_unique, active-freshness, active_known,
}
use intelligent_rag_framewor.Session.Readiness.Scans.{is_resolved, gaps_for_claim_scan}
use intelligent_rag_framewor.Session.Refinement.Transitions.{revised}
use intelligent_rag_framewor.Spec.{Edge, IsStrong, active, with_status}
use intelligent_rag_framewor.Spec.Valid.{IsValid}

all_of : (p : ℤ → Bool) (xs : List ℤ) → ((i : ℤ) → elem i xs ≡ true → p i ≡ true) → all p xs ≡ true
unfolding all
all_of p [] h = refl
all_of p (x ∷ xs) h =
    ground (arith, h x (elem_head x xs), all_of p xs (λ i m. h i (elem_tail x i xs m)))

module _ {F : Type 0} ⦃fl : Floats F⦄ where
  -- the method that records a label in the history
  abbrev pub method_of : String → ℤ → Call F Bool
  method_of label c =
      if label == "confirm_if_ready"
      then confirm_claim_if_ready c
      else if label == "refute_if_ready"
      then refute_claim_if_ready c
      else if label == "dispute_if_ready"
      then dispute_claim_if_ready c
      else if label == "resolve_disputed_if_ready"
      then resolve_disputed_claim_if_ready c
      else if label == "refute_disputed_if_ready"
      then refute_disputed_claim_if_ready c
      else refute_disputed_claim_if_ready_by_freshness c

module _ {F : Type 0} ⦃fl : Floats F⦄ (s : Engine F) (c : ℤ) (claim : Claim F)
    (known : lookup c s.claims ≡ some claim) where
  -- the answer is true, and the status, the record and the revision are written
  abbrev pub Makes : Call F Bool → ℤ → String → Type 0
  Makes method to label = method s ≡ (ok true, revised s (with_status s c claim to label))

  confirms :
      IsValid s
      → claim.status ≡ ClaimStatus.candidate
      → is_empty (get_or s.claim_gap_refs c []) ≡ false
      → ((g : ℤ)
          → elem g (get_or s.claim_gap_refs c []) ≡ true
          → contains g s.gap_resolutions ≡ true)
      → Makes (confirm_claim_if_ready c) ClaimStatus.confirmed "confirm_if_ready"
  unfolding confirm_claim_if_ready
  confirms v status some_gap resolved =
      let (gs, read, ready, empty) = gaps_for_claim_scan s v c (ground arith) in
      ground (
        arith,
        eqb_ℤ_iff claim.status ClaimStatus.candidate,
        all_of (is_resolved s) (get_or s.claim_gap_refs c []) resolved,
      )

  refutes :
      claim.status ≡ ClaimStatus.candidate
      → is_empty (get_or s.contradictions c []) ≡ false
      → Makes (refute_claim_if_ready c) ClaimStatus.refuted "refute_if_ready"
  unfolding refute_claim_if_ready
  refutes status some_contradiction = ground (arith, eqb_ℤ_iff claim.status ClaimStatus.candidate)

  disputes :
      claim.status ≡ ClaimStatus.confirmed
      → is_empty (get_or s.contradictions c []) ≡ false
      → Makes (dispute_claim_if_ready c) ClaimStatus.disputed "dispute_if_ready"
  unfolding dispute_claim_if_ready
  disputes status some_contradiction = ground (arith, eqb_ℤ_iff claim.status ClaimStatus.confirmed)

  resolves :
      claim.status ≡ ClaimStatus.disputed
      → is_empty (active s c) ≡ true
      → Makes (resolve_disputed_claim_if_ready c) ClaimStatus.confirmed "resolve_disputed_if_ready"
  unfolding resolve_disputed_claim_if_ready active_contradictions_for_claim
  resolves status settled =
      ground (arith, eqb_ℤ_iff claim.status ClaimStatus.disputed, is_empty-sort (active s c))

  -- the loop reaches a strong contradiction
  any_refutes :
      (ids : List ℤ) (e : ℤ) (x : Evidence F)
      → elem e ids ≡ true
      → lookup e s.evidences ≡ some x
      → fl.leb (fl.lit 8 10) x.strength.value ≡ true
      → ((k : ℤ) → elem k ids ≡ true → contains k s.evidences ≡ true)
      → Makes (refute_by_any c claim ids) ClaimStatus.refuted "refute_disputed_if_ready"
  unfolding refute_by_any elem
  any_refutes [] e x member found strong stored = absurd (ground (arith, elem-nil e))
  any_refutes (i ∷ ids) e x member found strong stored =
      elim (Option-cases (lookup i s.evidences)) [
        | inl absent ↦ absurd (ground (arith, stored i (elem_head i ids)))
        | inr (y, there) ↦ elim (Bool-cases (fl.leb (fl.lit 8 10) y.strength.value)) [
          | inl enough ↦ ground arith
          | inr weak ↦
              let later : elem e ids ≡ true = ground (arith, eqb_ℤ_iff i e) in
              ground (
                arith,
                any_refutes ids e x later found strong (λ k m. stored k (elem_tail i k ids m)),
              )
        ]
      ]

  refutes_disputed :
      IsValid s
      → claim.status ≡ ClaimStatus.disputed
      → (e : ℤ) → IsStrong s c e
      → Makes (refute_disputed_claim_if_ready c) ClaimStatus.refuted "refute_disputed_if_ready"
  unfolding refute_disputed_claim_if_ready active_contradictions_for_claim
  refutes_disputed v status e (member, x, found, strong) = ground (
    arith,
    eqb_ℤ_iff claim.status ClaimStatus.disputed,
    any_refutes (sort (active s c)) e x (elem-sort e (active s c) ∙ member) found strong
        (λ k m. active_known s v c k (sym (elem-sort k (active s c)) ∙ m)),
  )

  refutes_by_freshness :
      claim.status ≡ ClaimStatus.disputed
      → (e : ℤ) → IsStrong s c e
      → ((k : ℤ) → elem k (active s c) ≡ true → k ≤ℤ e)
      → Makes
          (refute_disputed_claim_if_ready_by_freshness c)
          ClaimStatus.refuted
          "refute_disputed_by_freshness_if_ready"
  unfolding refute_disputed_claim_if_ready_by_freshness active_contradictions_by_freshness
      refute_by_first
  refutes_by_freshness status e (member, x, found, strong) largest =
      let (i, rest, first) = active-freshness s c e member in
      let here : i ≡ e =
        freshest_unique s c i e (freshest_lem s c i rest first) (member, largest) in
      let found_first : lookup i s.evidences ≡ some x = rw here found in
      ground (arith, eqb_ℤ_iff claim.status ClaimStatus.disputed)

  -- What the abstract machine allows, the methods do: on a valid engine, where the machine has an edge
  -- from the status of a known claim, with some label, the method that records this label returns true
  -- and leaves the engine with exactly the new status, the record of the move under that label, and
  -- the revision advanced by one.
  pub Edge-method_of :
      (to : ℤ) (label : String)
      → IsValid s
      → Edge s c claim.status to label
      → method_of label c s ≡ (ok true, revised s (with_status s c claim to label))
  Edge-method_of to label v (Edge.confirm status target name some_gap resolved) =
      rw (name, target) (confirms v status some_gap resolved)
  Edge-method_of to label v (Edge.refute status target name some_contradiction) =
      rw (name, target) (refutes status some_contradiction)
  Edge-method_of to label v (Edge.dispute status target name some_contradiction) =
      rw (name, target) (disputes status some_contradiction)
  Edge-method_of to label v (Edge.resolve_disputed status target name settled) =
      rw (name, target) (resolves status settled)
  Edge-method_of to label v (Edge.refute_disputed e status target name strong) =
      rw (name, target) (refutes_disputed v status e strong)
  Edge-method_of to label v (Edge.refute_by_freshness e status target name strong largest) =
      rw (name, target) (refutes_by_freshness status e strong largest)
