-- ===== src/UnitTests/Connect.antt =====
-- The tests of src/transport/connect.rs. The state outside the program is the counter of attempts,
-- of 32 bits, beside whatever `tokio::time::sleep` changes.
use bluesdp.Prelude.{ℕ, ◌+◌, ◌%◌, ◌^◌, Bool, true, ◌==◌, ◌>>=◌, Result, ok, err, ltb, if◌then◌else◌}
use bluesdp.Prelude.Equality.{nat_eq}
use bluesdp.Transport.Connect.{
  RetriesExhausted, retries_exhausted, max_connect_attempts, connect_with_retry,
}
use bluesdp.UnitTests.Outcome.{Outcome, assert, assert_eq, result_eq}

-- `AtomicU32::fetch_add(1, …)`
abbrev fetch_add : ℕ → ℕ
fetch_add attempts = (attempts + 1) % 2 ^ 32

-- The derived `PartialEq` of `RetriesExhausted`.
abbrev pub retries_exhausted_eq : RetriesExhausted → RetriesExhausted → Bool
retries_exhausted_eq retries_exhausted retries_exhausted = true

module _ {C : Type 0} (sleep : ℕ → C → C) (clock : C) where
  -- `connect_with_retry` on a closure that counts its calls.
  abbrev counted : (ℕ → Result (Unit {0}) ℕ) → Result RetriesExhausted ℕ × (ℕ × C)
  counted attempt =
      connect_with_retry (λ d (attempts, c). (attempts, sleep d c))
        (λ (attempts, c). (attempt attempts, (fetch_add attempts, c))) (0, clock)

  abbrev pub succeeds_immediately_when_first_attempt_succeeds : Outcome (Unit {0})
  succeeds_immediately_when_first_attempt_succeeds = do
    let (result, (attempts, _)) = counted (λ _. ok 42)
    _ ← assert (result_eq retries_exhausted_eq ◌==◌ result (ok 42))
    assert_eq attempts 1

  abbrev pub succeeds_after_transient_failures_within_the_attempt_budget : Outcome (Unit {0})
  succeeds_after_transient_failures_within_the_attempt_budget = do
    let (result, (attempts, _)) = counted (λ k. if ltb k 2 then err tt else ok 7)
    _ ← assert (result_eq retries_exhausted_eq ◌==◌ result (ok 7))
    assert_eq attempts 3

  abbrev pub gives_up_after_max_attempts : Outcome (Unit {0})
  gives_up_after_max_attempts = do
    let (result, (attempts, _)) = counted (λ _. err tt)
    _ ← assert (result_eq retries_exhausted_eq ◌==◌ result (err retries_exhausted))
    assert_eq attempts max_connect_attempts
