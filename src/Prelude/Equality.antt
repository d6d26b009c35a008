-- ===== src/Prelude/Equality.antt =====
-- An equality test, as an interface, and its instances for texts and tuples.
use Prim.Native.String.{String}
use mathlib.Core.Path.{◌≡◌}
use mathlib.Core.Logic.{◌↔◌}
use mathlib.Core.Bool.{Bool, true, ◌&&◌}
use native.Mathlib.Omega.{arith}
use text.Mathlib.TextEquality.{eq_iff}
use text.Mathlib.Text.{◌==◌ as str_eq}

-- A Boolean test that decides equality of the type.
pub record HasEq {ℓ} (A : Type ℓ) : Type ℓ where
  pub test : A → A → Bool
  pub test_iff : (x y : A) → (test x y ≡ true) ↔ (x ≡ y)

instance abbrev pub string_eq : HasEq String
string_eq = record { test = str_eq; test_iff = eq_iff }

-- `x == y`
infix 50 ◌==◌
abbrev pub ◌==◌ {ℓ} : {A : Type ℓ} ⦃h : HasEq A⦄ → A → A → Bool
◌==◌ ⦃h⦄ x y = h.test x y

module _ {ℓ κ} {A : Type ℓ} {B : Type κ} (d : HasEq A) (e : HasEq B) where
  abbrev pub pair_beq : A × B → A × B → Bool
  pair_beq p q = d.test p.0 q.0 && e.test p.1 q.1

  pub pair_beq_iff : (p q : A × B) → (pair_beq p q ≡ true) ↔ (p ≡ q)
  pair_beq_iff (a, b) (c, f) = ground (arith, d.test_iff a c, e.test_iff b f)

instance abbrev pub pair_eq {ℓ κ} :
    {A : Type ℓ} {B : Type κ} ⦃d : HasEq A⦄ ⦃e : HasEq B⦄ → HasEq (A × B)
pair_eq ⦃d⦄ ⦃e⦄ = record { test = pair_beq d e; test_iff = pair_beq_iff d e }

module _ {ℓ} {A : Type ℓ} (d : HasEq A) where
  abbrev pub quad_beq : A × A × A × A → A × A × A × A → Bool
  quad_beq p q = d.test p.0 q.0 && (d.test p.1 q.1 && (d.test p.2 q.2 && d.test p.3 q.3))

  pub quad_beq_iff : (p q : A × A × A × A) → (quad_beq p q ≡ true) ↔ (p ≡ q)
  quad_beq_iff (a, b, c, f) (a', b', c', f') =
      ground (arith, d.test_iff a a', d.test_iff b b', d.test_iff c c', d.test_iff f f')

instance abbrev pub quad_eq {ℓ} : {A : Type ℓ} ⦃d : HasEq A⦄ → HasEq (A × A × A × A)
quad_eq ⦃d⦄ = record { test = quad_beq d; test_iff = quad_beq_iff d }

pub test_refl {ℓ} : {A : Type ℓ} ⦃e : HasEq A⦄ (a : A) → (a == a) ≡ true
test_refl ⦃e⦄ a = ground (arith, e.test_iff a a)
