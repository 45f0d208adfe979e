-- ===== src/UnitTests/Outcome.antt =====
-- What the tests take from the language: their results, and its assertions.
use bluesdp.Prelude.{Bool, true, false, not, Option, none, some, Result, ok, err, map_err}
use bluesdp.Prelude.Text.{String, ◌<>◌}
use bluesdp.Prelude.Equality.{Eq}

-- A test that does not end well panics or returns `Err`.
pub data Stop : Type 0 where
  panicked : Stop
  returned : String → Stop

abbrev pub Outcome : Type 0 → Type 0
Outcome A = Result Stop A

-- `assert!`
abbrev pub assert : Bool → Outcome (Unit {0})
assert true = ok tt
assert false = err panicked

-- `assert_eq!` and `assert_ne!`
abbrev pub assert_eq : {A : Type 0} ⦃e : Eq A⦄ → A → A → Outcome (Unit {0})
assert_eq ⦃e⦄ a b = assert (e.eq a b)

abbrev pub assert_ne : {A : Type 0} ⦃e : Eq A⦄ → A → A → Outcome (Unit {0})
assert_ne ⦃e⦄ a b = assert (not (e.eq a b))

-- `Result::is_err`
abbrev pub is_err {ℓ κ} : {E : Type ℓ} {A : Type κ} → Result E A → Bool
is_err (err _) = true
is_err _ = false

-- `.map_err(|e| format!("…{e}"))` and `?`
abbrev pub or_return {ℓ} :
    {E : Type ℓ} {A : Type 0} → String → (E → String) → Result E A → Outcome A
or_return text to_string = map_err λ e. returned (text <> to_string e)

-- `.ok_or("…")` and `?`
abbrev pub ok_or : {A : Type 0} → String → Option A → Outcome A
ok_or text none = err (returned text)
ok_or text (some a) = ok a

-- `Result` has the equality of its two types.
abbrev pub result_eq :
    {E A : Type 0} → (E → E → Bool) → (A → A → Bool) → Result E A → Result E A → Bool
result_eq same_error same (ok a) (ok b) = same a b
result_eq same_error same (err a) (err b) = same_error a b
result_eq same_error same _ _ = false
