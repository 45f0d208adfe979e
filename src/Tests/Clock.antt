-- ===== src/Tests/Clock.antt =====
-- The theorem on the time of a query, at a device whose clock is the sum of what was waited for.
use bluesdp.Prelude.{ℕ, ◌+◌, ◌≤◌, ◌≡◌, List, [], ◌∷◌, ◌++◌, arith, Result, ok, err, out_of_fuel}
use bluesdp.Io.{Stream, Timed, Elapsed}
use bluesdp.Transport.Time.{Within, IsTimely}
use bluesdp.Public.{pbap, query_rfcomm_channel}
use bluesdp.Public.Time.{IsPrompt, query_rfcomm_channel-Within}
use bluesdp.Tests.Parsers.{parsers, buffer}
use bluesdp.Tests.Device.{World, Failed, front, write_all, rest, bluer_over}

abbrev sum : List ℕ → ℕ
sum [] = 0
sum (d ∷ ds) = d + sum ds

sum-append : (ds : List ℕ) (d : ℕ) → sum (ds ++ d ∷ []) ≡ sum ds + d
sum-append [] d = omega arith
sum-append (c ∷ ds) d = omega (arith, sum-append ds d)

abbrev clock : World → ℕ
clock w = sum w.naps

-- A read for which too little is pending waits until its timeout, which is noted.
abbrev waits : ℕ → Result Elapsed (List ℕ × List ℕ) → World → Timed Failed (List ℕ) × World
waits d (ok (later, bytes)) w = (ok (ok bytes), record w { pending = later })
waits d (err e) w = (err e, rest d w)
waits d out_of_fuel w = (out_of_fuel, w)

abbrev in_time : Stream World Failed
in_time = record { write_all = write_all; read_exact = λ d k w. waits d (front k w) w }

waits_lem :
    (d : ℕ) (r : Result Elapsed (List ℕ × List ℕ)) (w : World)
    → clock (waits d r w).1 ≤ clock w + (d + 0)
waits_lem d (ok p) w = omega arith
waits_lem d (err e) w = omega (arith, sum-append w.naps d)
waits_lem d out_of_fuel w = omega arith

writes : (d : ℕ) (bytes : List ℕ) → Within clock (d + 0) (write_all d bytes)
writes d bytes w = ground arith

in_time-IsTimely : IsTimely in_time clock 0
in_time-IsTimely = record { writes = writes; reads = λ d k w. waits_lem d (front k w) w }

in_time-IsPrompt : IsPrompt (bluer_over ok in_time) clock 0 0
in_time-IsPrompt = record {
  dials = λ a w. ground arith;
  sleeps = λ d w. omega (arith, sum-append w.naps d);
  timely = λ h. in_time-IsTimely;
}

-- It answers no request.
abbrev silent : World
silent = record { refusals = 2; naps = []; pending = []; answers = []; requests = [] }

query_rfcomm_channel-Within_example :
    clock
      (query_rfcomm_channel parsers buffer
        (bluer_over ok in_time)
        0
        "00:11:22:33:44:55"
        pbap
        silent).1
    ≤ 0 + 60800
query_rfcomm_channel-Within_example =
    query_rfcomm_channel-Within parsers buffer (bluer_over ok in_time) clock 0 0 in_time-IsPrompt 0
      "00:11:22:33:44:55" pbap silent
