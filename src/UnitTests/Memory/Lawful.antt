-- ===== src/UnitTests/Memory/Lawful.antt =====
-- The runtime in memory is one with a duplex stream.
use bluesdp.Prelude.{
  ℕ, ◌≤◌, ◌≡◌, ◌≢◌, refl, ap, sym, ◌∙◌, inl, inr, ◌⊎◌, List, ◌++◌, append_assoc, Result, ok, err,
  out_of_fuel, length, length-append, leb, leb→le, le→leb, true, false, arith, Bool,
}
use bluesdp.Nom.Split.{split, split-append, split-eq-ok, split-ne-out_of_fuel}
use bluesdp.Io.{Elapsed, elapsed}
use bluesdp.UnitTests.Outcome.{Outcome}
use bluesdp.UnitTests.Duplex.{Task, read_exact, write_all, ended, IsDuplex}
use bluesdp.UnitTests.Memory.{Never, Both, advance, client_write, client_read, delivered, in_memory}

abbrev took : ℕ → List ℕ → Result Elapsed (List ℕ × List ℕ)
took = split λ _. elapsed

result_cases :
    (r : Result Elapsed (List ℕ × List ℕ))
    → r ≢ out_of_fuel
    → ((rest : List ℕ) × (bytes : List ℕ) × (r ≡ ok (rest, bytes))) ⊎ (r ≡ err elapsed)
result_cases (ok (rest, bytes)) h = inl (rest, bytes, refl)
result_cases (err elapsed) h = inr refl
result_cases out_of_fuel h = absurd (h refl)

took_cases :
    (k : ℕ) (xs : List ℕ)
    → ((rest : List ℕ) × (bytes : List ℕ) × (took k xs ≡ ok (rest, bytes)))
      ⊎ (took k xs ≡ err elapsed)
took_cases k xs = result_cases (took k xs) (split-ne-out_of_fuel (λ _. elapsed) k xs)

leb_cases : (b : Bool) → (b ≡ true) ⊎ (b ≡ false)
leb_cases true = inl refl
leb_cases false = inr refl

module _ {A : Type 0} (capacity : ℕ) where
  abbrev stands : Task Never A → List ℕ → List ℕ → Both A
  stands task inp out = record {
    capacity = capacity;
    to_server = inp;
    to_client = out;
    task = task;
  }

  module _ (inp out : List ℕ) where
    -- The steps of the task.
    read_goes :
        (k : ℕ) (next : Result Never (List ℕ) → Task Never A) (rest bytes : List ℕ)
        → took k inp ≡ ok (rest, bytes)
        → advance capacity (read_exact k next) inp out ≡ advance capacity (next (ok bytes)) rest out
    unfolding advance
    read_goes k next rest bytes h = rw (h, advance) refl

    read_waits :
        (k : ℕ) (next : Result Never (List ℕ) → Task Never A)
        → took k inp ≡ err elapsed
        → advance capacity (read_exact k next) inp out ≡ stands (read_exact k next) inp out
    unfolding advance
    read_waits k next h = rw (h, advance) refl

    module _ (bytes : List ℕ) (next : Result Never (Unit {0}) → Task Never A) where
      write_goes :
          leb (length (out ++ bytes)) capacity ≡ true
          → advance capacity (write_all bytes next) inp out
            ≡ advance capacity (next (ok tt)) inp (out ++ bytes)
      unfolding advance
      write_goes h = rw (h, advance) refl

      write_waits :
          leb (length (out ++ bytes)) capacity ≡ false
          → advance capacity (write_all bytes next) inp out ≡ stands (write_all bytes next) inp out
      unfolding advance
      write_waits h = rw (h, advance) refl

    ended_lem :
        (outcome : Outcome A)
        → advance capacity (ended outcome) inp out ≡ stands (ended outcome) inp out
    unfolding advance
    ended_lem outcome = refl

  -- `s` is where the task goes no further; it goes on from there when more is written to it.
  record Fed (s : Both A) (task : Task Never A) (inp more out : List ℕ) : Type 0 where
    pub kept : s.capacity ≡ capacity
    pub shorter : length s.to_server ≤ length inp
    pub resumes :
        advance capacity s.task (s.to_server ++ more) s.to_client
        ≡ advance capacity task (inp ++ more) out

  feeds :
      (task : Task Never A) (inp more out : List ℕ)
      → Fed (advance capacity task inp out) task inp more out
  feeds (read_exact k next) inp more out = elim (took_cases k inp) [
    | inl (rest, bytes, h) ↦
        let fed = feeds (next (ok bytes)) rest more out in
        let (whole, size) = split-eq-ok (λ _. elapsed) k inp rest bytes h in
        let again : took k (inp ++ more) ≡ ok (rest ++ more, bytes) =
          ap (λ xs. took k (xs ++ more)) whole
          ∙ ap (took k) (append_assoc bytes rest more)
          ∙ split-append (λ _. elapsed) k bytes (rest ++ more) size in
        rw (read_goes inp out k next rest bytes h) (record {
          kept = fed.kept;
          shorter = omega (arith, fed.shorter, ap length whole, length-append bytes rest);
          resumes =
              fed.resumes ∙ sym (read_goes (inp ++ more) out k next (rest ++ more) bytes again);
        })
    | inr h ↦
        rw (read_waits inp out k next h)
          (record { kept = refl; shorter = omega arith; resumes = refl })
  ]
  feeds (write_all bytes next) inp more out =
      elim (leb_cases (leb (length (out ++ bytes)) capacity)) [
        | inl h ↦
            let fed = feeds (next (ok tt)) inp more (out ++ bytes) in
            rw (write_goes inp out bytes next h) (record {
              kept = fed.kept;
              shorter = fed.shorter;
              resumes = fed.resumes ∙ sym (write_goes (inp ++ more) out bytes next h);
            })
        | inr h ↦
            rw (write_waits inp out bytes next h)
              (record { kept = refl; shorter = omega arith; resumes = refl })
      ]
  feeds (ended outcome) inp more out =
      rw (ended_lem inp out outcome) (record { kept = refl; shorter = omega arith; resumes = refl })

  -- `s` is where the task goes no further; bytes for the client stay at the front, and it goes on
  -- from there when they are read.
  record Drained (s : Both A) (task : Task Never A) (inp front out : List ℕ) : Type 0 where
    pub kept : s.capacity ≡ capacity
    pub behind : List ℕ
    pub whole : s.to_client ≡ front ++ behind
    pub resumes : advance capacity s.task s.to_server behind ≡ advance capacity task inp out

  drains :
      (task : Task Never A) (inp front out : List ℕ)
      → Drained (advance capacity task inp (front ++ out)) task inp front out
  drains (read_exact k next) inp front out = elim (took_cases k inp) [
    | inl (rest, bytes, h) ↦
        let drained = drains (next (ok bytes)) rest front out in
        rw (read_goes inp (front ++ out) k next rest bytes h) (record {
          kept = drained.kept;
          behind = drained.behind;
          whole = drained.whole;
          resumes = drained.resumes ∙ sym (read_goes inp out k next rest bytes h);
        })
    | inr h ↦
        rw (read_waits inp (front ++ out) k next h)
          (record { kept = refl; behind = out; whole = refl; resumes = refl })
  ]
  drains (write_all bytes next) inp front out =
      elim (leb_cases (leb (length ((front ++ out) ++ bytes)) capacity)) [
        | inl h ↦
            let drained = drains (next (ok tt)) inp front (out ++ bytes) in
            let joined = append_assoc front out bytes in
            let room : length (out ++ bytes) ≤ capacity =
              omega (arith, leb→le _ _ h, ap length joined, length-append front (out ++ bytes)) in
            rw (write_goes inp (front ++ out) bytes next h, joined)
              (record {
                kept = drained.kept;
                behind = drained.behind;
                whole = drained.whole;
                resumes = drained.resumes ∙ sym (write_goes inp out bytes next (le→leb _ _ room));
              })
        | inr h ↦
            rw (write_waits inp (front ++ out) bytes next h)
              (record { kept = refl; behind = out; whole = refl; resumes = refl })
      ]
  drains (ended outcome) inp front out =
      rw (ended_lem inp (front ++ out) outcome)
        (record { kept = refl; behind = out; whole = refl; resumes = refl })

-- The state is where the task goes no further from here.
abbrev Stands : {A : Type 0} → ℕ → Task Never A → List ℕ → List ℕ → Both A → Type 0
Stands capacity task inp out s = s ≡ advance capacity task inp out

client_write_room :
    {A : Type 0} (d : ℕ) (bytes : List ℕ) (s : Both A)
    → leb (length (s.to_server ++ bytes)) s.capacity ≡ true
    → client_write d bytes s
      ≡ (ok (ok tt), advance s.capacity s.task (s.to_server ++ bytes) s.to_client)
client_write_room d bytes s room = rw (client_write, room) refl

module _ {A : Type 0} (capacity : ℕ) (task : Task Never A) where
  writes_to_task :
      (d : ℕ) (bytes inp out : List ℕ) (s : Both A)
      → length (inp ++ bytes) ≤ capacity
      → Stands capacity task inp out s
      → (s' : Both A) × (client_write d bytes s ≡ (ok (ok tt), s'))
        × Stands capacity task (inp ++ bytes) out s'
  writes_to_task d bytes inp out s fits at =
      let fed = feeds capacity task inp bytes out in
      let t = advance capacity task inp out in
      let room : leb (length (t.to_server ++ bytes)) t.capacity ≡ true = le→leb _ _ (
        omega (
          arith,
          fits,
          fed.kept,
          fed.shorter,
          length-append inp bytes,
          length-append t.to_server bytes,
        )) in
      let resumed = ap (λ c. advance c t.task (t.to_server ++ bytes) t.to_client) fed.kept in
      (
        advance t.capacity t.task (t.to_server ++ bytes) t.to_client,
        ap (client_write d bytes) at ∙ client_write_room d bytes t room,
        resumed ∙ fed.resumes,
      )

  reads_from_task :
      (d k : ℕ) (bytes rest inp : List ℕ) (s : Both A)
      → length bytes ≡ k
      → Stands capacity task inp (bytes ++ rest) s
      → (s' : Both A) × (client_read d k s ≡ (ok (ok bytes), s')) × Stands capacity task inp rest s'
  reads_from_task d k bytes rest inp s size at =
      let drained = drains capacity task inp bytes rest in
      let t = advance capacity task inp (bytes ++ rest) in
      let got =
        ap (took k) drained.whole ∙ split-append (λ _. elapsed) k bytes drained.behind size in
      (
        advance t.capacity t.task t.to_server drained.behind,
        ap (client_read d k) at ∙ ap (delivered t) got,
        ap (λ c. advance c t.task t.to_server drained.behind) drained.kept ∙ drained.resumes,
      )

pub in_memory-IsDuplex : {A : Type 0} → IsDuplex (in_memory {A = A})
in_memory-IsDuplex {A} = record {
  At = Stands;
  spawns = λ capacity task. refl;
  task_reads = λ capacity k bytes rest out next s size at.
      at
      ∙ read_goes capacity (bytes ++ rest) out k next rest bytes
          (split-append (λ _. elapsed) k bytes rest size);
  task_writes = λ capacity bytes inp out next s fits at.
      at ∙ write_goes capacity inp out bytes next (le→leb _ _ fits);
  client_writes = λ capacity d task bytes inp out s. writes_to_task capacity task d bytes inp out s;
  client_reads =
      λ capacity d k task bytes rest inp s. reads_from_task capacity task d k bytes rest inp s;
  joins = λ capacity outcome inp out s at. rw (at, ended_lem capacity inp out outcome) refl;
}
