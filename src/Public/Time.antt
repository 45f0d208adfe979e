-- ===== src/Public/Time.antt =====
-- How long `query_rfcomm_channel` takes.
use bluesdp.Prelude.{
  ℕ, zero, suc, ◌+◌, ◌*◌, ◌≤◌, arith, Bool-cases, inl, inr, Result, ok, err, out_of_fuel, map_err,
  ltb, if◌then◌else◌,
}
use bluesdp.Prelude.Text.{String}
use bluesdp.Nom.{Nom}
use bluesdp.Buf.{Buf}
use bluesdp.Io.{Io, lift}
use bluesdp.Transport.Connect.{
  RetriesExhausted, max_connect_attempts, retry_delay, connect_loop, connect_with_retry,
}
use bluesdp.Transport.Time.{
  Within, then-Within, lift-Within, IsTimely, exchange_time, find_rfcomm_channel-Within,
}
use bluesdp.Transport.Live.{Bluer, connect_sdp}
use bluesdp.Public.{
  Uuid16, SdpError, invalid_address, connect, retries_exhausted_text, map_err_io,
  query_rfcomm_channel,
}

module _ {W X T : Type 0} (clock : W → ℕ) (sleep : ℕ → W → W) (attempt : Io W X T)
    (attempt_time slack : ℕ) (dials : Within clock attempt_time attempt)
    (sleeps : (d : ℕ) (w : W) → clock (sleep d w) ≤ clock w + (d + slack)) where
  -- A delay stands between two attempts.
  abbrev pause : ℕ → ℕ
  pause k = if ltb (k + 1) max_connect_attempts then retry_delay + slack else 0

  abbrev loop_time : ℕ → ℕ → ℕ
  loop_time zero k = 0
  loop_time (suc left) k = attempt_time + (pause k + loop_time left (k + 1))

  rested :
      (k : ℕ) (w : W)
      → clock (if ltb (k + 1) max_connect_attempts then sleep retry_delay w else w)
        ≤ clock w + pause k
  rested k w = elim (Bool-cases (ltb (k + 1) max_connect_attempts)) [
    | inl again ↦ rw again (sleeps retry_delay w)
    | inr last ↦ rw last (omega arith)
  ]

  after_attempt :
      (r : Result X T) (w' : W) (later : Result RetriesExhausted T × W) (most : ℕ)
      → clock w' ≤ most
      → clock later.1 ≤ most
      → clock
          (elim r as (λ _. Result RetriesExhausted T × W) [
            | ok value ↦ (ok value, w')
            | _ ↦ later
          ]).1
        ≤ most
  after_attempt (ok value) w' later most here next = here
  after_attempt (err e) w' later most here next = next
  after_attempt out_of_fuel w' later most here next = next

  connect_loop-Within :
      (left k : ℕ) → Within clock (loop_time left k) (connect_loop sleep attempt left k)
  unfolding connect_loop
  connect_loop-Within zero k w = omega arith
  connect_loop-Within (suc left) k w =
      let w' = (attempt w).1 in
      let w'' = if ltb (k + 1) max_connect_attempts then sleep retry_delay w' else w' in
      after_attempt (attempt w).0 w' (connect_loop sleep attempt left (k + 1) w'') _
        (omega (arith, dials w))
        (omega (arith, dials w, rested k w', connect_loop-Within left (k + 1) w''))

  connect_with_retry-Within :
      Within clock (5 * attempt_time + 4 * (retry_delay + slack)) (connect_with_retry sleep attempt)
  unfolding connect_with_retry
  connect_with_retry-Within w = omega (arith, connect_loop-Within 5 0 w)

-- What a device's side takes: `attempt_time` for an attempt to connect, and no more than the
-- timeout for a wait and the duration for a delay, but for `slack`.
pub record IsPrompt {W H Address SocketAddr Invalid X : Type 0}
    (u : Bluer W H Address SocketAddr Invalid X) (clock : W → ℕ) (attempt_time slack : ℕ)
    : Type 0 where
  pub dials : (a : SocketAddr) → Within clock attempt_time (u.connect a)
  pub sleeps : (d : ℕ) (w : W) → clock (u.sleep d w) ≤ clock w + (d + slack)
  pub timely : (handle : H) → IsTimely (u.stream handle) clock slack

-- Five attempts with four delays, and then the query.
abbrev pub query_time : ℕ → ℕ → ℕ → ℕ
query_time attempt_time slack fuel =
    5 * attempt_time + 4 * (retry_delay + slack) + suc fuel * exchange_time slack

module _ {E B F W H Address SocketAddr Invalid X : Type 0} (n : Nom E B) (b : Buf F)
    (u : Bluer W H Address SocketAddr Invalid X) (clock : W → ℕ) (attempt_time slack : ℕ)
    (prompt : IsPrompt u clock attempt_time slack) where
  -- Whether it fails or not, a query takes at most the time of five attempts to connect and four
  -- delays of 200 ms, and that of three timeouts of 20 seconds for its first page and for each unit
  -- of fuel, if no wait takes longer than its timeout or duration but for `slack`.
  pub query_rfcomm_channel-Within :
      (fuel : ℕ) (addr : String) (uuid : Uuid16)
      → Within clock
          (query_time attempt_time slack fuel)
          (query_rfcomm_channel n b u fuel addr uuid)
  unfolding query_rfcomm_channel connect_sdp
  query_rfcomm_channel-Within fuel addr uuid =
      let invalid : Invalid → SdpError = λ i. invalid_address (u.invalid_to_string i) in
      let refused : RetriesExhausted → SdpError = λ d. connect (retries_exhausted_text d) in
      let total = query_time attempt_time slack fuel in
      let exchanges = suc fuel * exchange_time slack in
      let parsed = map_err invalid (u.parse addr) in
      then-Within clock 0 total total (lift parsed) _ (lift-Within clock parsed)
        (λ address.
          let attempt = u.connect (u.br_edr_socket_addr address 1) in
          let connecting =
            connect_with_retry-Within clock u.sleep attempt attempt_time slack
              (prompt.dials (u.br_edr_socket_addr address 1)) prompt.sleeps in
          then-Within clock (5 * attempt_time + 4 * (retry_delay + slack)) exchanges total
            (map_err_io refused (connect_sdp u address)) _ connecting
            (λ handle.
              find_rfcomm_channel-Within n b (u.stream handle) clock slack (prompt.timely handle)
                uuid.value fuel)
            (omega arith))
        (omega arith)
