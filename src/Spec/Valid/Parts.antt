-- ===== src/Spec/Valid/Parts.antt =====
-- How the parts of the invariant go through a write to a dict.
use intelligent_rag_framewor.Prelude.{
  ℤ, pos, ◌+ℤ◌, ◌≤ℤ◌, String, true, false, ◌≡◌, List, [], HasEq, int_eq, string_eq, ◌==◌, elem,
  adjoin, elem-adjoin, ap, pos_part, neg_part, eqb_ℤ_iff, Option-cases, test_refl, inl, inr, ◌&&◌,
  ◌||◌, ◌⊎◌, arith, int_laws, some,
}
use intelligent_rag_framewor.Prelude.Dict.{
  Dict, lookup, contains, insert, get_or, lookup-insert_cases, get_or-insert, get_or_known,
  get_or_unknown, contains_mono,
}
use intelligent_rag_framewor.Spec.Valid.{Stored, Each, EachIn, Counts}

module _ {K V : Type 0} ⦃e : HasEq K⦄ where
  pub Each-insert :
      (P : K → V → Type 0) (k : K) (v : V) (d : Dict K V) → Each P d → P k v → Each P (insert k v d)
  Each-insert P k v d h p j x found = elim (lookup-insert_cases k j v x d found) [
    | inl (here, same) ↦ rw (here, same) p
    | inr (other, old) ↦ h j x old
  ]

  pub Each-map :
      (P Q : K → V → Type 0) (d : Dict K V)
      → ((k : K) (x : V) → P k x → Q k x)
      → Each P d
      → Each Q d
  Each-map P Q d f h k x found = f k x (h k x found)

pub get_or_nonneg :
    (kind : String) (counters : Dict String ℤ)
    → Counts counters
    → pos 0 ≤ℤ get_or counters kind (pos 0)
get_or_nonneg kind counters c = elim (Option-cases (lookup kind counters)) [
  | inl e ↦ rw (get_or_unknown counters kind (pos 0) e) (omega arith)
  | inr (n, e) ↦ rw (get_or_known counters kind (pos 0) n e) (c kind n e)
]

pub Counts-insert :
    (kind : String) (k : ℤ) (counters : Dict String ℤ)
    → Counts counters
    → k ≡ get_or counters kind (pos 0) +ℤ pos 1
    → Counts (insert kind k counters)
Counts-insert kind k counters c fresh j n found =
    elim (lookup-insert_cases kind j k n counters found) [
      | inl (here, same) ↦ omega (
        int_laws,
        ap pos_part same,
        ap neg_part same,
        ap pos_part fresh,
        ap neg_part fresh,
        get_or_nonneg kind counters c,
      )
      | inr (other, old) ↦ c j n old
    ]

pub elem-with_member :
    (c i k j : ℤ) (d : Dict ℤ (List ℤ))
    → elem j (get_or (insert c (adjoin i (get_or d c [])) d) k [])
      ≡ ((c == k && i == j) || elem j (get_or d k []))
elem-with_member c i k j d = ground (
  arith,
  get_or-insert c k (adjoin i (get_or d c [])) [] d,
  elem-adjoin j i (get_or d c []),
  eqb_ℤ_iff c k,
)

member_cases :
    (c i k j : ℤ) (d : Dict ℤ (List ℤ))
    → elem j (get_or (insert c (adjoin i (get_or d c [])) d) k []) ≡ true
    → ((k ≡ c) × (j ≡ i)) ⊎ (elem j (get_or d k []) ≡ true)
member_cases c i k j d found =
    ground (arith, elem-with_member c i k j d, eqb_ℤ_iff c k, eqb_ℤ_iff i j)

-- A set that grows by one member.
pub EachIn-adjoin :
    (P : ℤ → ℤ → Type 0) (c i : ℤ) (d : Dict ℤ (List ℤ))
    → EachIn P d
    → P c i
    → EachIn P (insert c (adjoin i (get_or d c [])) d)
EachIn-adjoin P c i d h p k j found = elim (member_cases c i k j d found) [
  | inl (here, same) ↦ rw (here, same) p
  | inr old ↦ h k j old
]

pub EachIn-map :
    (P Q : ℤ → ℤ → Type 0) (d : Dict ℤ (List ℤ))
    → ((k i : ℤ) → P k i → Q k i)
    → EachIn P d
    → EachIn Q d
EachIn-map P Q d f h k i found = f k i (h k i found)

module _ {V : Type 0} (id : V → ℤ) where
  pub Stored-new :
      (kind : String) (k : ℤ) (x : V) (counters : Dict String ℤ) (d : Dict ℤ V)
      → Counts counters
      → Stored id (get_or counters kind (pos 0)) d
      → k ≡ get_or counters kind (pos 0) +ℤ pos 1
      → id x ≡ k
      → Stored id (get_or (insert kind k counters) kind (pos 0)) (insert k x d)
  Stored-new kind k x counters d c h fresh e j y found =
      let last = get_or counters kind (pos 0) in
      rw get_or-insert (
        rw (test_refl kind) (elim (lookup-insert_cases k j x y d found) [
          | inl (here, same) ↦
              rw (here, same)
                (
                  e,
                  omega (
                    int_laws,
                    ap pos_part fresh,
                    ap neg_part fresh,
                    get_or_nonneg kind counters c,
                  ),
                  omega arith,
                )
          | inr (other, old) ↦
              let (a, b, c') = h j y old in
              (a, b, omega (int_laws, ap pos_part fresh, ap neg_part fresh))
        ]))

  pub Stored-other :
      (kind other : String) (k : ℤ) (counters : Dict String ℤ) (d : Dict ℤ V)
      → (kind == other) ≡ false
      → Stored id (get_or counters other (pos 0)) d
      → Stored id (get_or (insert kind k counters) other (pos 0)) d
  Stored-other kind other k counters d ne h = rw (get_or-insert, ne) h

  pub Stored-replace :
      (last k : ℤ) (old new : V) (d : Dict ℤ V)
      → Stored id last d
      → lookup k d ≡ some old
      → id new ≡ id old
      → Stored id last (insert k new d)
  Stored-replace last k old new d h known same j y found =
      elim (lookup-insert_cases k j new y d found) [
        | inl (here, e) ↦ ground (arith, h k old known)
        | inr (other, found_old) ↦ h j y found_old
      ]

-- References into a store that gets one more entry.
pub Each-contains :
    {K V W : Type 0} ⦃e : HasEq K⦄ (f : V → ℤ) (k : ℤ) (w : W) (d : Dict K V) (target : Dict ℤ W)
    → Each (λ _ x. contains (f x) target ≡ true) d
    → Each (λ _ x. contains (f x) (insert k w target) ≡ true) d
Each-contains f k w d target h j x found = contains_mono k (f x) w target (h j x found)

pub Each-contains_key :
    {V W : Type 0} (k : ℤ) (w : W) (d : Dict ℤ V) (target : Dict ℤ W)
    → Each (λ j _. contains j target ≡ true) d
    → Each (λ j _. contains j (insert k w target) ≡ true) d
Each-contains_key k w d target h j x found = contains_mono k j w target (h j x found)

pub EachIn-contains :
    {W : Type 0} (k : ℤ) (w : W) (d : Dict ℤ (List ℤ)) (target : Dict ℤ W)
    → EachIn (λ _ i. contains i target ≡ true) d
    → EachIn (λ _ i. contains i (insert k w target) ≡ true) d
EachIn-contains k w d target h j i found = contains_mono k i w target (h j i found)
