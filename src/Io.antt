-- ===== src/Io.antt =====
-- Code that awaits a stream: it is given the state of what lies outside the program, and returns
-- that state with its result. `Stream` is what the program takes from tokio for it, as a parameter.
use bluesdp.Prelude
use bluesdp.Prelude.{
  ℕ, ◌≡◌, List, Result, ok, err, out_of_fuel, length, All, IsByte, ◌≢◌, ap, refl, ◌⊎◌, inl, inr,
  err-injective, err-ne-ok, out_of_fuel-ne-ok,
}

abbrev pub Io {ℓ κ ι} : Type ℓ → Type κ → Type ι → Type (ℓ ⊔ κ ⊔ ι)
Io S E A = S → Result E A × S

module _ {ℓ κ ι ο} {S : Type ℓ} {E : Type κ} {A : Type ι} {B : Type ο} where
  abbrev pub continue : Result E A → (A → Io S E B) → Io S E B
  continue (ok a) f s = f a s
  continue (err e) f s = (err e, s)
  continue out_of_fuel f s = (out_of_fuel, s)

  infixl 5 ◌>>=◌
  abbrev pub ◌>>=◌ : Io S E A → (A → Io S E B) → Io S E B
  ◌>>=◌ m f s = let (r, s') = m s in continue r f s'

-- Inversion of a successful wait.
module _ {ℓ κ ι ο} {S : Type ℓ} {E : Type κ} {A : Type ι} {B : Type ο} where
  continue-eq-ok :
      (r : Result E A) (f : A → Io S E B) (s s'' : S) {b : B}
      → continue r f s ≡ (ok b, s'')
      → (a : A) × (r ≡ ok a) × (f a s ≡ (ok b, s''))
  continue-eq-ok (ok a) f s s'' h = (a, refl, h)
  continue-eq-ok (err e) f s s'' h = absurd (err-ne-ok (ap (λ (p : Result E B × S). p.0) h))
  continue-eq-ok out_of_fuel f s s'' h =
      absurd (out_of_fuel-ne-ok (ap (λ (p : Result E B × S). p.0) h))

  pub >>=-eq-ok :
      (m : Io S E A) (f : A → Io S E B) (s s'' : S) {b : B}
      → (m >>= f) s ≡ (ok b, s'')
      → (a : A) × ((m s).0 ≡ ok a) × (f a (m s).1 ≡ (ok b, s''))
  >>=-eq-ok m f s s'' h = continue-eq-ok (m s).0 f (m s).1 s'' h

-- An error that neither step returns.
module _ {ℓ κ ι ο} {S : Type ℓ} {E : Type κ} {A : Type ι} {B : Type ο} (e : E) where
  continue-ne-err :
      (r : Result E A) (f : A → Io S E B) (s : S)
      → ◌≢◌ {A = Result E A} r (err e)
      → ((a : A) → r ≡ ok a → ◌≢◌ {A = Result E B} (f a s).0 (err e))
      → ◌≢◌ {A = Result E B} (continue r f s).0 (err e)
  continue-ne-err (ok a) f s h k = k a refl
  continue-ne-err (err e') f s h k = λ p. h (ap err (err-injective p))
  continue-ne-err out_of_fuel f s h k = λ p. cc

  pub >>=-ne-err :
      (m : Io S E A) (f : A → Io S E B) (s : S)
      → ◌≢◌ {A = Result E A} (m s).0 (err e)
      → ((a : A) → (m s).0 ≡ ok a → ◌≢◌ {A = Result E B} (f a (m s).1).0 (err e))
      → ◌≢◌ {A = Result E B} ((m >>= f) s).0 (err e)
  >>=-ne-err m f s = continue-ne-err (m s).0 f (m s).1

-- Where an error comes from.
module _ {ℓ κ ι ο} {S : Type ℓ} {E : Type κ} {A : Type ι} {B : Type ο} {e : E} where
  continue-eq-err :
      (r : Result E A) (f : A → Io S E B) (s : S)
      → ◌≡◌ {A = Result E B} (continue r f s).0 (err e)
      → ◌≡◌ {A = Result E A} r (err e)
        ⊎ ((a : A) × (r ≡ ok a) × ◌≡◌ {A = Result E B} (f a s).0 (err e))
  continue-eq-err (ok a) f s h = inr (a, refl, h)
  continue-eq-err (err d) f s h = inl (ap err (err-injective h))
  continue-eq-err out_of_fuel f s h = cc

  pub >>=-eq-err :
      (m : Io S E A) (f : A → Io S E B) (s : S)
      → ◌≡◌ {A = Result E B} ((m >>= f) s).0 (err e)
      → ◌≡◌ {A = Result E A} (m s).0 (err e)
        ⊎ ((a : A) × ((m s).0 ≡ ok a) × ◌≡◌ {A = Result E B} (f a (m s).1).0 (err e))
  >>=-eq-err m f s = continue-eq-err (m s).0 f (m s).1

-- Two continuations that agree where the first has a result.
module _ {ℓ κ ι ο} {S : Type ℓ} {E : Type κ} {A : Type ι} {B : Type ο} where
  continue_same :
      (r : Result E A) (f g : A → Io S E B) (s : S)
      → ((a : A) → r ≡ ok a → (f a s).0 ≢ out_of_fuel → g a s ≡ f a s)
      → (continue r f s).0 ≢ out_of_fuel
      → continue r g s ≡ continue r f s
  continue_same (ok a) f g s h k = h a refl k
  continue_same (err e) f g s h k = refl
  continue_same out_of_fuel f g s h k = absurd (k refl)

  pub >>=_same :
      (m : Io S E A) (f g : A → Io S E B) (s : S)
      → ((a : A) → (m s).0 ≡ ok a → (f a (m s).1).0 ≢ out_of_fuel → g a (m s).1 ≡ f a (m s).1)
      → ((m >>= f) s).0 ≢ out_of_fuel
      → (m >>= g) s ≡ (m >>= f) s
  >>=_same m f g s = continue_same (m s).0 f g (m s).1

  continue_first :
      (r : Result E A) (f : A → Io S E B) (s : S)
      → (continue r f s).0 ≢ out_of_fuel
      → r ≢ out_of_fuel
  continue_first (ok a) f s h p = cc
  continue_first (err e) f s h p = cc
  continue_first out_of_fuel f s h p = h refl

  pub >>=_first :
      (m : Io S E A) (f : A → Io S E B) (s : S)
      → ((m >>= f) s).0 ≢ out_of_fuel
      → (m s).0 ≢ out_of_fuel
  >>=_first m f s = continue_first (m s).0 f (m s).1

abbrev pub lift {ℓ κ ι} : {S : Type ℓ} {E : Type κ} {A : Type ι} → Result E A → Io S E A
lift r s = (r, s)

module _ {ℓ κ ι ο} {S : Type ℓ} {E : Type κ} {A : Type ι} {B : Type ο} where
  pub continue-lift :
      (r : Result E A) (f : A → Result E B) (s : S)
      → continue r (λ a. lift (f a)) s ≡ (Prelude.◌>>=◌ r f, s)
  continue-lift (ok a) f s = refl
  continue-lift (err e) f s = refl
  continue-lift out_of_fuel f s = refl

module _ {ℓ κ ι ο υ} {S : Type ℓ} {E : Type κ} {A : Type ι} {B : Type ο} {C : Type υ} where
  continue_assoc :
      (r : Result E A) (f : A → Io S E B) (g : B → Io S E C) (s : S)
      → (continue r f >>= g) s ≡ continue r (λ a. f a >>= g) s
  continue_assoc (ok a) f g s = refl
  continue_assoc (err e) f g s = refl
  continue_assoc out_of_fuel f g s = refl

  pub >>=_assoc :
      (m : Io S E A) (f : A → Io S E B) (g : B → Io S E C) (s : S)
      → (m >>= f >>= g) s ≡ (m >>= λ a. f a >>= g) s
  >>=_assoc m f g s = continue_assoc (m s).0 f g (m s).1

-- The error of a deadline that passed.
pub data Elapsed : Type 0 where
  elapsed : Elapsed

-- `timeout(d, …).await` returns the result of what it waited for, unless `d` passed first.
abbrev pub Timed : Type 0 → Type 0 → Type 0
Timed X A = Result Elapsed (Result X A)

-- `S` is the state of the stream and of its peer, `X` is `std::io::Error`. The first number of
-- each operation is the timeout in milliseconds.
pub record Stream (S X : Type 0) : Type 0 where
  -- `timeout(d, stream.write_all(bytes)).await`
  pub write_all : ℕ → List ℕ → S → Timed X (Unit {0}) × S
  -- `timeout(d, stream.read_exact(&mut buffer)).await`, for a buffer of `k` bytes
  pub read_exact : ℕ → ℕ → S → Timed X (List ℕ) × S

-- `read_exact` fills the buffer when it succeeds.
pub record IsExact {S X : Type 0} (stream : Stream S X) : Type 0 where
  pub fills :
      (d k : ℕ) (s s' : S) (bytes : List ℕ)
      → stream.read_exact d k s ≡ (ok (ok bytes), s')
      → (length bytes ≡ k) × All IsByte bytes
