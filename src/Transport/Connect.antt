-- ===== src/Transport/Connect.antt =====
-- src/transport/connect.rs: connecting with a bounded number of attempts.
pub mod Attempts
use bluesdp.Prelude.{ℕ, zero, suc, ◌+◌, Result, ok, err, out_of_fuel, ltb, if◌then◌else◌}
use bluesdp.Io.{Io}

abbrev pub max_connect_attempts : ℕ
max_connect_attempts = 5

-- In milliseconds.
abbrev pub retry_delay : ℕ
retry_delay = 200

pub data RetriesExhausted : Type 0 where
  retries_exhausted : RetriesExhausted

-- `sleep` is `tokio::time::sleep(…).await`.
module _ {W X T : Type 0} (sleep : ℕ → W → W) (connect : Io W X T) where
  -- The `for` loop, from the attempt number `attempt` on, with `left` rounds to go.
  unfoldable pub connect_loop : ℕ → ℕ → Io W RetriesExhausted T
  connect_loop zero attempt w = (err retries_exhausted, w)
  connect_loop (suc left) attempt w =
      let (outcome, w') = connect w in
      let w'' = if ltb (attempt + 1) max_connect_attempts then sleep retry_delay w' else w' in
      elim outcome [ ok value ↦ (ok value, w') | _ ↦ connect_loop left (attempt + 1) w'' ]

  unfoldable pub connect_with_retry : Io W RetriesExhausted T
  connect_with_retry = connect_loop max_connect_attempts 0
