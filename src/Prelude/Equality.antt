-- ===== src/Prelude/Equality.antt =====
-- `PartialEq` on the types of the program, as a test that decides equality.
use Prim.Native.Nat.{ℕ}
use mathlib.Core.Path.{◌≡◌, refl, ap}
use mathlib.Core.Logic.{◌↔◌}
use mathlib.Core.Bool.{Bool, true, false, ◌&&◌}
use mathlib.Core.List.{List, [], ◌∷◌}
use mathlib.Core.Option.{Option, none, some}
use bluesdp.Prelude.Tests.{◌==◌, ==_iff}

pub record Eq {ℓ} (A : Type ℓ) : Type ℓ where
  pub eq : A → A → Bool
  pub eq_iff : (a b : A) → (eq a b ≡ true) ↔ (a ≡ b)

instance abbrev pub nat_eq : Eq ℕ
nat_eq = record { eq = ◌==◌; eq_iff = ==_iff }

-- A test of two parts.
pub both_iff {ℓ κ} :
    (p q : Bool) {P : Type ℓ} {Q : Type κ}
    → (p ≡ true) ↔ P
    → (q ≡ true) ↔ Q
    → ((p && q) ≡ true) ↔ (P × Q)
both_iff true true hp hq = (λ _. (hp.0 refl, hq.0 refl), λ _. refl)
both_iff true false hp hq = (λ h. cc, λ (_, y). hq.1 y)
both_iff false q hp hq = (λ h. cc, λ (x, _). hp.1 x)

pub &&-eq-true : (p q : Bool) → (p && q) ≡ true → (p ≡ true) × (q ≡ true)
&&-eq-true true q h = (refl, h)
&&-eq-true false q h = cc

module _ {ℓ} {A : Type ℓ} ⦃e : Eq A⦄ where
  abbrev list_eq : List A → List A → Bool
  list_eq [] [] = true
  list_eq (x ∷ xs) (y ∷ ys) = e.eq x y && list_eq xs ys
  list_eq _ _ = false

  pub list_eq_iff : (xs ys : List A) → (list_eq xs ys ≡ true) ↔ (xs ≡ ys)
  list_eq_iff [] [] = (λ _. refl, λ _. refl)
  list_eq_iff [] (y ∷ ys) = (λ h. cc, λ h. cc)
  list_eq_iff (x ∷ xs) [] = (λ h. cc, λ h. cc)
  list_eq_iff (x ∷ xs) (y ∷ ys) =
      let same = both_iff (e.eq x y) (list_eq xs ys) (e.eq_iff x y) (list_eq_iff xs ys) in
      (λ h. let (p, q) = same.0 h in rw (p, q) refl, λ h. same.1 (cc, cc))

  abbrev option_eq : Option A → Option A → Bool
  option_eq none none = true
  option_eq (some x) (some y) = e.eq x y
  option_eq _ _ = false

  pub option_eq_iff : (o p : Option A) → (option_eq o p ≡ true) ↔ (o ≡ p)
  option_eq_iff none none = (λ _. refl, λ _. refl)
  option_eq_iff none (some y) = (λ h. cc, λ h. cc)
  option_eq_iff (some x) none = (λ h. cc, λ h. cc)
  option_eq_iff (some x) (some y) = (λ h. ap some ((e.eq_iff x y).0 h), λ h. (e.eq_iff x y).1 cc)

  instance abbrev pub vec_eq : Eq (List A)
  vec_eq = record { eq = list_eq; eq_iff = list_eq_iff }

  instance abbrev pub optional_eq : Eq (Option A)
  optional_eq = record { eq = option_eq; eq_iff = option_eq_iff }
