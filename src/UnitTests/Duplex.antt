-- ===== src/UnitTests/Duplex.antt =====
-- What the tests of src/transport take from tokio, as a parameter: a duplex stream in memory, with
-- a task spawned at its other end.
use bluesdp.Prelude.{ℕ, ◌≡◌, ◌≤◌, List, [], ◌++◌, Option, Result, ok, err, out_of_fuel, length}
use bluesdp.Prelude
use bluesdp.Prelude.Text.{String}
use bluesdp.Io.{Stream}
use bluesdp.UnitTests.Outcome.{Outcome, or_return}

-- A task, by the next thing that it awaits at its end of the stream. `X` is `std::io::Error`.
pub data Task (X A : Type 0) : Type 0 where
  read_exact : ℕ → (Result X (List ℕ) → Task X A) → Task X A
  write_all : List ℕ → (Result X (Unit {0}) → Task X A) → Task X A
  ended : Outcome A → Task X A

module _ {X A C : Type 0} where
  abbrev go_on : Outcome A → (A → Task X C) → Task X C
  go_on (ok a) f = f a
  go_on (err e) f = ended (err e)
  go_on out_of_fuel f = ended out_of_fuel

  -- `?` and what follows.
  infixl 5 ◌>>=◌
  abbrev pub ◌>>=◌ : Task X A → (A → Task X C) → Task X C
  read_exact k next >>= f = read_exact k λ r. next r >>= f
  write_all bytes next >>= f = write_all bytes λ r. next r >>= f
  ended outcome >>= f = go_on outcome f

-- `read_exact` and `write_all` with their `map_err`.
module _ {X : Type 0} (to_string : X → String) where
  abbrev pub reads : String → ℕ → Task X (List ℕ)
  reads text k = read_exact k λ r. ended (or_return text to_string r)

  abbrev pub writes : String → List ℕ → Task X (Unit {0})
  writes text bytes = write_all bytes λ r. ended (or_return text to_string r)

-- `S` is the state of the stream and of the task, and `J` is `JoinError`.
pub record Runtime (X J A S : Type 0) : Type 0 where
  -- `tokio::io::duplex(capacity)` and `tokio::spawn`
  pub spawn : ℕ → Task X A → S
  -- the end that the test keeps
  pub client : Stream S X
  -- `server_task.await`
  pub join : S → Result J (Outcome A)
  pub io_to_string : X → String
  pub join_to_string : J → String

-- `.await.map_err(|e| format!("server task panicked: {e}"))??`
abbrev pub joined : {X J A S : Type 0} → Runtime X J A S → S → Outcome A
joined rt s =
    Prelude.◌>>=◌ (or_return "server task panicked: " rt.join_to_string (rt.join s))
      λ outcome. outcome

-- The documented behaviour of `tokio::io::duplex` and `tokio::spawn`. `At capacity task to_server
-- to_client s` says that in `s` the task can come to stand here, with these bytes on their way to
-- it and these to the client. Bytes arrive in order. A write that fits the buffer is taken, bytes
-- that are in the buffer are there to read, and a spawned task gets its turns while the client
-- waits. What happens at a write that does not fit is left open.
pub record IsDuplex {X J A S : Type 0} (rt : Runtime X J A S) : Type 1 where
  pub At : ℕ → Task X A → List ℕ → List ℕ → S → Type 0
  pub spawns : (capacity : ℕ) (task : Task X A) → At capacity task [] [] (rt.spawn capacity task)
  pub task_reads :
      (capacity k : ℕ) (bytes rest to_client : List ℕ) (next : Result X (List ℕ) → Task X A) (s : S)
      → length bytes ≡ k
      → At capacity (read_exact k next) (bytes ++ rest) to_client s
      → At capacity (next (ok bytes)) rest to_client s
  pub task_writes :
      (capacity : ℕ) (bytes to_server to_client : List ℕ) (next : Result X (Unit {0}) → Task X A)
      (s : S)
      → length (to_client ++ bytes) ≤ capacity
      → At capacity (write_all bytes next) to_server to_client s
      → At capacity (next (ok tt)) to_server (to_client ++ bytes) s
  pub client_writes :
      (capacity d : ℕ) (task : Task X A) (bytes to_server to_client : List ℕ) (s : S)
      → length (to_server ++ bytes) ≤ capacity
      → At capacity task to_server to_client s
      → (s' : S) × (rt.client.write_all d bytes s ≡ (ok (ok tt), s'))
        × At capacity task (to_server ++ bytes) to_client s'
  pub client_reads :
      (capacity d k : ℕ) (task : Task X A) (bytes rest to_server : List ℕ) (s : S)
      → length bytes ≡ k
      → At capacity task to_server (bytes ++ rest) s
      → (s' : S) × (rt.client.read_exact d k s ≡ (ok (ok bytes), s'))
        × At capacity task to_server rest s'
  pub joins :
      (capacity : ℕ) (outcome : Outcome A) (to_server to_client : List ℕ) (s : S)
      → At capacity (ended outcome) to_server to_client s
      → rt.join s ≡ ok outcome
