-- ===== src/UnitTests/Memory.antt =====
-- A runtime for the tests: two buffers of the same capacity, and a task that runs whenever it can.
pub mod Lawful
use bluesdp.Prelude.{ℕ, List, [], ◌++◌, Result, ok, err, out_of_fuel, length, leb, true, false}
use bluesdp.Nom.Split.{split}
use bluesdp.Io.{Timed, Elapsed, elapsed}
use bluesdp.UnitTests.Outcome.{Outcome}
use bluesdp.UnitTests.Duplex.{Task, read_exact, write_all, ended, Runtime}

-- No read or write fails, and no task panics.
pub data Never : Type 0 where

-- What the client wrote and the task has not read, what the task wrote and the client has not
-- read, and where the task stands.
pub record Both (A : Type 0) : Type 0 where
  pub capacity : ℕ
  pub to_server : List ℕ
  pub to_client : List ℕ
  pub task : Task Never A

module _ {A : Type 0} where
  -- The task goes on until it waits for bytes, or for room for all of the bytes that it writes, or
  -- ends.
  unfoldable pub advance : ℕ → Task Never A → List ℕ → List ℕ → Both A
  advance capacity (read_exact k next) to_server to_client =
      elim (split (λ _. elapsed) k to_server) [
        | ok (rest, bytes) ↦ advance capacity (next (ok bytes)) rest to_client
        | _ ↦ record {
          capacity = capacity;
          to_server = to_server;
          to_client = to_client;
          task = read_exact k next;
        }
      ]
  advance capacity (write_all bytes next) to_server to_client =
      elim (leb (length (to_client ++ bytes)) capacity) [
        | true ↦ advance capacity (next (ok tt)) to_server (to_client ++ bytes)
        | false ↦ record {
          capacity = capacity;
          to_server = to_server;
          to_client = to_client;
          task = write_all bytes next;
        }
      ]
  advance capacity (ended outcome) to_server to_client = record {
    capacity = capacity;
    to_server = to_server;
    to_client = to_client;
    task = ended outcome;
  }

  -- A write for which there is no room waits until its timeout.
  abbrev pub client_write : ℕ → List ℕ → Both A → Timed Never (Unit {0}) × Both A
  client_write d bytes s = elim (leb (length (s.to_server ++ bytes)) s.capacity) [
    | true ↦ (ok (ok tt), advance s.capacity s.task (s.to_server ++ bytes) s.to_client)
    | false ↦ (err elapsed, s)
  ]

  -- A read for which too little is there waits until its timeout.
  abbrev pub delivered : Both A → Result Elapsed (List ℕ × List ℕ) → Timed Never (List ℕ) × Both A
  delivered s (ok (rest, bytes)) = (ok (ok bytes), advance s.capacity s.task s.to_server rest)
  delivered s (err e) = (err e, s)
  delivered s out_of_fuel = (out_of_fuel, s)

  abbrev pub client_read : ℕ → ℕ → Both A → Timed Never (List ℕ) × Both A
  client_read d k s = delivered s (split (λ _. elapsed) k s.to_client)

  -- A task that is not done is waited for.
  abbrev join : Both A → Result Never (Outcome A)
  join s = elim s.task [ ended outcome ↦ ok outcome | _ ↦ out_of_fuel ]

  abbrev pub in_memory : Runtime Never Never A (Both A)
  in_memory = record {
    spawn = λ capacity task. advance capacity task [] [];
    client = record { write_all = client_write; read_exact = client_read };
    join = join;
    io_to_string = λ _. "";
    join_to_string = λ _. "";
  }
