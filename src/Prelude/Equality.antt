-- ===== src/Prelude/Equality.antt =====
-- What can be a key of a dict: numbers (identifiers) and texts (lists of code points).
use Prim.Native.Nat.{ℕ}
use mathlib.Core.Path.{◌≡◌, refl}
use mathlib.Core.Logic.{◌↔◌}
use mathlib.Core.Bool.{Bool, true, false, ◌&&◌}
use mathlib.Core.List.{List, [], ◌∷◌}
use native.Mathlib.Omega.{arith}
use yeson_meet.Prelude.Tests.{nat_eq, nat_eq_iff}

-- Python's `==` on a type of keys, and that it is equality.
pub record Keyable {ℓ} (K : Type ℓ) : Type ℓ where
  pub same : K → K → Bool
  pub same_iff : (j k : K) → (same j k ≡ true) ↔ (j ≡ k)

instance abbrev pub ℕ_eq : Keyable ℕ
ℕ_eq = record { same = nat_eq; same_iff = nat_eq_iff }

module _ {ℓ} {K : Type ℓ} ⦃e : Keyable K⦄ where
  abbrev pub list_beq : List K → List K → Bool
  list_beq [] [] = true
  list_beq (x ∷ xs) (y ∷ ys) = e.same x y && list_beq xs ys
  list_beq _ _ = false

  pub list_beq_iff : (xs ys : List K) → (list_beq xs ys ≡ true) ↔ (xs ≡ ys)
  list_beq_iff [] [] = ground arith
  list_beq_iff [] (y ∷ ys) = ground arith
  list_beq_iff (x ∷ xs) [] = ground arith
  list_beq_iff (x ∷ xs) (y ∷ ys) = ground (arith, e.same_iff x y, list_beq_iff xs ys)

-- Texts are lists of code points.
pub text_beq_iff : (s t : List ℕ) → (list_beq s t ≡ true) ↔ (s ≡ t)
text_beq_iff = list_beq_iff

instance abbrev pub text_eq : Keyable (List ℕ)
text_eq = record { same = list_beq; same_iff = text_beq_iff }

module _ {ℓ} {K : Type ℓ} ⦃e : Keyable K⦄ where
  infix 50 ◌==◌
  abbrev pub ◌==◌ : K → K → Bool
  ◌==◌ = e.same

  pub beq_refl : (k : K) → (k == k) ≡ true
  beq_refl k = (e.same_iff k k).1 refl
