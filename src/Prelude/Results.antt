-- ===== src/Prelude/Results.antt =====
-- The outcome of fallible code, Rust's `Result`. `out_of_fuel` has no counterpart in the program:
-- a loop of the model was given too little fuel.
use mathlib.Core.Path.{◌≡◌, refl, ap}
use mathlib.Core.Logic.{◌≢◌, ◌⊎◌, inl, inr}

pub data Result {ℓ κ} (E : Type ℓ) (A : Type κ) : Type (ℓ ⊔ κ) where
  ok : A → Result E A
  err : E → Result E A
  out_of_fuel : Result E A

module _ {ℓ κ ι} {E : Type ℓ} {A : Type κ} {B : Type ι} where
  infixl 5 ◌>>=◌
  abbrev pub ◌>>=◌ : Result E A → (A → Result E B) → Result E B
  ok a >>= f = f a
  err e >>= f = err e
  out_of_fuel >>= f = out_of_fuel

  -- Inversion of a successful bind.
  pub >>=-eq-ok :
      (first : Result E A) (next : A → Result E B) {last : B}
      → (first >>= next) ≡ ok last
      → (value : A) × (first ≡ ok value) × (next value ≡ ok last)
  >>=-eq-ok out_of_fuel next h = cc
  >>=-eq-ok (err _) next h = cc
  >>=-eq-ok (ok value) next h = (value, refl, h)

  pub >>=-ne-out_of_fuel :
      (m : Result E A) (f : A → Result E B)
      → m ≢ out_of_fuel
      → ((a : A) → m ≡ ok a → f a ≢ out_of_fuel)
      → (m >>= f) ≢ out_of_fuel
  >>=-ne-out_of_fuel (ok a) f h k = k a refl
  >>=-ne-out_of_fuel (err e) f h k = λ p. cc
  >>=-ne-out_of_fuel out_of_fuel f h k = absurd (h refl)

pub >>=_assoc {ℓ κ ι ο} :
    {E : Type ℓ} {A : Type κ} {B : Type ι} {C : Type ο} (m : Result E A) (f : A → Result E B)
    (g : B → Result E C)
    → (m >>= f >>= g) ≡ (m >>= λ a. f a >>= g)
>>=_assoc (ok a) f g = refl
>>=_assoc (err e) f g = refl
>>=_assoc out_of_fuel f g = refl

-- Inversion of a step that decodes a part `o` of what was read and passes the rest `r` on.
module _ {ℓ κ ι} {E : Type ℓ} {R : Type κ} {A : Type ι} where
  keep_rest : (r : R) (m : Result E A) {p : R × A} → (m >>= λ a. ok (r, a)) ≡ ok p → m ≡ ok p.1
  keep_rest r (ok a) h = cc
  keep_rest r (err e) h = cc
  keep_rest r out_of_fuel h = cc

  same_rest : (r : R) (m : Result E A) {p : R × A} → (m >>= λ a. ok (r, a)) ≡ ok p → r ≡ p.0
  same_rest r (ok a) h = cc
  same_rest r (err e) h = cc
  same_rest r out_of_fuel h = cc

module _ {ℓ κ ι ο} {E : Type ℓ} {R : Type κ} {O : Type ι} {A : Type ο} where
  pub decode_rest-eq-ok :
      (m : Result E (R × O)) (g : O → Result E A) {p : R × A}
      → (m >>= λ (r, o). g o >>= λ a. ok (r, a)) ≡ ok p
      → (o : O) × (m ≡ ok (p.0, o)) × (g o ≡ ok p.1)
  decode_rest-eq-ok (ok (r, o)) g h =
      (o, ap (λ (t : R). ok (t, o)) (same_rest r (g o) h), keep_rest r (g o) h)
  decode_rest-eq-ok (err e) g h = cc
  decode_rest-eq-ok out_of_fuel g h = cc

module _ {ℓ κ} {E : Type ℓ} {A : Type κ} where
  pub err-ne-ok : {e : E} {a : A} → ◌≢◌ {A = Result E A} (err e) (ok a)
  err-ne-ok h = cc

  pub out_of_fuel-ne-ok : {a : A} → ◌≢◌ {A = Result E A} out_of_fuel (ok a)
  out_of_fuel-ne-ok h = cc

pub err-injective {ℓ κ} :
    {E : Type ℓ} {A : Type κ} {d e : E} → ◌≡◌ {A = Result E A} (err d) (err e) → d ≡ e
err-injective h = cc

pub ok-injective {ℓ κ} :
    {E : Type ℓ} {A : Type κ} {a b : A} → ◌≡◌ {A = Result E A} (ok a) (ok b) → a ≡ b
ok-injective h = cc

-- `Result::map_err`
abbrev pub map_err {ℓ κ ι} :
    {E : Type ℓ} {F : Type κ} {A : Type ι} → (E → F) → Result E A → Result F A
map_err f (ok a) = ok a
map_err f (err e) = err (f e)
map_err f out_of_fuel = out_of_fuel

pub Result-cases {ℓ κ} :
    {E : Type ℓ} {A : Type κ} (r : Result E A)
    → r ≢ out_of_fuel
    → ((a : A) × (r ≡ ok a)) ⊎ ((e : E) × (r ≡ err e))
Result-cases (ok a) h = inl (a, refl)
Result-cases (err e) h = inr (e, refl)
Result-cases out_of_fuel h = absurd (h refl)

pub map_err-eq-ok {ℓ κ ι} :
    {E : Type ℓ} {F : Type κ} {A : Type ι} (f : E → F) (r : Result E A) {a : A}
    → map_err f r ≡ ok a
    → r ≡ ok a
map_err-eq-ok f (ok a) h = ap ok (ok-injective h)
map_err-eq-ok f (err e) h = absurd (err-ne-ok h)
map_err-eq-ok f out_of_fuel h = absurd (out_of_fuel-ne-ok h)

pub map_err-eq-err {ℓ κ ι} :
    {E : Type ℓ} {F : Type κ} {A : Type ι} (f : E → F) (r : Result E A) {e : F}
    → ◌≡◌ {A = Result F A} (map_err f r) (err e)
    → (d : E) × (r ≡ err d) × (f d ≡ e)
map_err-eq-err f (ok a) h = cc
map_err-eq-err f (err d) h = (d, refl, err-injective h)
map_err-eq-err f out_of_fuel h = cc
