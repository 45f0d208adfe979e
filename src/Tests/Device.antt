-- ===== src/Tests/Device.antt =====
-- A device in memory, behind what the program takes from tokio and bluer.
use bluesdp.Prelude.{
  ℕ, zero, suc, ◌%◌, ◌≡◌, refl, ap, ◌∙◌, List, [], ◌∷◌, ◌++◌, Result, ok, err, out_of_fuel,
  ok-injective, length, map, All, IsByte, arith,
}
use bluesdp.Prelude.Text.{String}
use bluesdp.Nom.Split.{split, split-append, split-eq-ok}
use bluesdp.Io.{Stream, IsExact, Timed, Elapsed, elapsed}
use bluesdp.Transport.Socket.Peer.{Peer}
use bluesdp.Transport.Live.{Bluer}

-- The device refuses as many connections as `refusals` says.
pub record World : Type 0 where
  pub refusals : ℕ
  pub naps : List ℕ
  pub pending : List ℕ
  pub answers : List (List ℕ)
  pub requests : List (List ℕ)

pub data Failed : Type 0 where
  failed : Failed

abbrev pub write_all : ℕ → List ℕ → World → Timed Failed (Unit {0}) × World
write_all d bytes w = elim w.answers [
  | [] ↦ (ok (ok tt), record w { requests = w.requests ++ bytes ∷ [] })
  | answer ∷ more ↦ (
    ok (ok tt),
    record w { pending = w.pending ++ answer; answers = more; requests = w.requests ++ bytes ∷ [] },
  )
]

-- A read for which too little is pending waits until its timeout.
abbrev pub deliver :
    (List ℕ → List ℕ) → Result Elapsed (List ℕ × List ℕ) → World → Timed Failed (List ℕ) × World
deliver cut (ok (later, bytes)) w = (ok (ok (cut bytes)), record w { pending = later })
deliver cut (err e) w = (err e, w)
deliver cut out_of_fuel w = (out_of_fuel, w)

abbrev pub front : ℕ → World → Result Elapsed (List ℕ × List ℕ)
front k w = split (λ _. elapsed) k w.pending

abbrev read_exact : ℕ → ℕ → World → Timed Failed (List ℕ) × World
read_exact d k w = deliver (λ bytes. bytes) (front k w) w

abbrev pub in_memory : Stream World Failed
in_memory = record { write_all = write_all; read_exact = read_exact }

pub writes :
    (d : ℕ) (bytes : List ℕ) (s : World) (answer : List ℕ) (more : List (List ℕ))
    → s.answers ≡ answer ∷ more
    → (s' : World) × (write_all d bytes s ≡ (ok (ok tt), s'))
      × (s'.pending ≡ s.pending ++ answer)
      × (s'.answers ≡ more)
      × (s'.requests ≡ s.requests ++ bytes ∷ [])
writes d bytes s answer more queued = (
  record s { pending = s.pending ++ answer; answers = more; requests = s.requests ++ bytes ∷ [] },
  rw queued,
  refl,
  refl,
  refl,
)

pub reads :
    (d k : ℕ) (s : World) (bytes more : List ℕ)
    → s.pending ≡ bytes ++ more
    → length bytes ≡ k
    → (s' : World) × (read_exact d k s ≡ (ok (ok bytes), s'))
      × (s'.pending ≡ more)
      × (s'.answers ≡ s.answers)
      × (s'.requests ≡ s.requests)
reads d k s bytes more queued size =
    let there : front k s ≡ ok (more, bytes) =
      rw queued (split-append (λ _. elapsed) k bytes more size) in
    (record s { pending = more }, rw there, refl, refl, refl)

abbrev pub in_memory_peer : Peer in_memory
in_memory_peer = record {
  pending = λ w. w.pending;
  answers = λ w. w.answers;
  requests = λ w. w.requests;
  writes = writes;
  reads = reads;
}

-- The stream, whose numbers are cut to bytes.
abbrev pub cut_bytes : List ℕ → List ℕ
cut_bytes = map (λ x. x % 256)

abbrev read_bytes : ℕ → ℕ → World → Timed Failed (List ℕ) × World
read_bytes d k w = deliver cut_bytes (front k w) w

abbrev pub in_bytes : Stream World Failed
in_bytes = record { write_all = write_all; read_exact = read_bytes }

cut_fills :
    (bytes : List ℕ) → (length (cut_bytes bytes) ≡ length bytes) × All IsByte (cut_bytes bytes)
cut_fills [] = (refl, tt)
cut_fills (b ∷ bytes) = let (size, all) = cut_fills bytes in (ap suc size, (omega arith, all))

deliver_fills :
    (r : Result Elapsed (List ℕ × List ℕ)) (k : ℕ) (s s' : World) (bytes : List ℕ)
    → ((rest taken : List ℕ) → r ≡ ok (rest, taken) → length taken ≡ k)
    → deliver cut_bytes r s ≡ (ok (ok bytes), s')
    → (length bytes ≡ k) × All IsByte bytes
deliver_fills (ok (rest, taken)) k s s' bytes size h =
    let (same_size, all) = cut_fills taken in
    let same : cut_bytes taken ≡ bytes = ok-injective (ok-injective (ap (λ p. p.0) h)) in
    rw (← same) (same_size ∙ size rest taken refl, all)
deliver_fills (err e) k s s' bytes size h = cc
deliver_fills out_of_fuel k s s' bytes size h = cc

read_bytes_fills :
    (d k : ℕ) (s s' : World) (bytes : List ℕ)
    → read_bytes d k s ≡ (ok (ok bytes), s')
    → (length bytes ≡ k) × All IsByte bytes
read_bytes_fills d k s s' bytes =
    deliver_fills (front k s) k s s' bytes
      λ rest taken h. (split-eq-ok (λ _. elapsed) k s.pending rest taken h).1

pub in_bytes-IsExact : IsExact in_bytes
in_bytes-IsExact = record { fills = read_bytes_fills }

pub data Handle : Type 0 where
  handle : Handle

abbrev pub dial_once : World → Result Failed Handle × World
dial_once w = elim w.refusals [
  | zero ↦ (ok handle, w)
  | suc k ↦ (err failed, record w { refusals = k })
]

-- A delay is noted.
abbrev pub rest : ℕ → World → World
rest d w = record w { naps = w.naps ++ d ∷ [] }

abbrev pub bluer_over :
    (String → Result Failed String)
    → Stream World Failed
    → Bluer World Handle String (String × ℕ) Failed Failed
bluer_over parse stream = record {
  parse = parse;
  invalid_to_string = λ _. "not an address";
  br_edr_socket_addr = λ address psm. (address, psm);
  connect = λ _. dial_once;
  stream = λ _. stream;
  sleep = rest;
}
