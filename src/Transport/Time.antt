-- ===== src/Transport/Time.antt =====
-- How long the operations of src/transport wait.
use bluesdp.Prelude.{
  ℕ, zero, suc, ◌+◌, ◌*◌, ◌≤◌, List, [], ◌∷◌, ◌++◌, arith, Result, ok, err, out_of_fuel, map_err,
  find_map,
}
use native.Mathlib.Nat.{suc-mul}
use bluesdp.Nom.{Nom}
use bluesdp.Buf.{Buf}
use bluesdp.Io.{Io, ◌>>=◌, continue, lift, Stream}
use bluesdp.Codec.Encode
use bluesdp.Codec.Response.{raw_response, decode_attribute_lists}
use bluesdp.Codec.Extract.{rfcomm_channel}
use bluesdp.Transport.Socket.{
  SocketError, response_timeout, pdu_header_len, param_len, write, read, send_and_receive_pdu,
}
use bluesdp.Transport.Session.{
  QueryError, encode, decode, request_for, next_transaction, query_once, fetch_page, fetch_more,
  find_rfcomm_channel,
}

-- An operation that takes at most `d`, by a clock of what lies outside the program.
module _ {S E A : Type 0} where
  abbrev pub Within : (S → ℕ) → ℕ → Io S E A → Type 0
  Within clock d m = (s : S) → clock (m s).1 ≤ clock s + d

module _ {S : Type 0} (clock : S → ℕ) where
  pub lift-Within : {E A : Type 0} (r : Result E A) → Within clock 0 (lift r)
  lift-Within r s = omega arith

  continue-Within :
      {E A C : Type 0} (r : Result E A) (f : A → Io S E C) (q : ℕ)
      → ((a : A) → Within clock q (f a))
      → Within clock q (continue r f)
  continue-Within (ok a) f q h s = h a s
  continue-Within (err e) f q h s = omega arith
  continue-Within out_of_fuel f q h s = omega arith

  -- One after the other.
  pub then-Within :
      {E A C : Type 0} (p q k : ℕ) (m : Io S E A) (f : A → Io S E C)
      → Within clock p m
      → ((a : A) → Within clock q (f a))
      → p + q ≤ k
      → Within clock k (m >>= f)
  then-Within p q k m f hm hf le s = omega (arith, hm s, continue-Within (m s).0 f q hf (m s).1)

-- A wait with a timeout ends when that has passed, but for `slack`, in which the program is waited
-- for to go on.
pub record IsTimely {S X : Type 0} (stream : Stream S X) (clock : S → ℕ) (slack : ℕ) : Type 0 where
  pub writes : (d : ℕ) (bytes : List ℕ) → Within clock (d + slack) (stream.write_all d bytes)
  pub reads : (d k : ℕ) → Within clock (d + slack) (stream.read_exact d k)

-- The longest that an exchange takes.
abbrev pub exchange_time : ℕ → ℕ
exchange_time slack = 3 * (response_timeout + slack)

module _ {S X : Type 0} (stream : Stream S X) (clock : S → ℕ) (slack : ℕ)
    (timely : IsTimely stream clock slack) where
  -- An exchange, whether it fails or not, ends within three timeouts of 20 seconds.
  pub send_and_receive_pdu-Within :
      (request : List ℕ) → Within clock (exchange_time slack) (send_and_receive_pdu stream request)
  unfolding send_and_receive_pdu
  send_and_receive_pdu-Within request =
      let wait = response_timeout + slack in
      then-Within clock wait (2 * wait) (exchange_time slack) (write stream request) _
        (timely.writes response_timeout request)
        (λ _.
          then-Within clock wait wait (2 * wait) (read stream pdu_header_len) _
            (timely.reads response_timeout pdu_header_len)
            (λ header.
              then-Within clock wait 0 wait (read stream (param_len header)) _
                (timely.reads response_timeout (param_len header))
                (λ body. lift-Within clock {E = SocketError} (ok (header ++ body))) (omega arith))
            (omega arith))
        (omega arith)

module _ {E B F S X : Type 0} (n : Nom E B) (b : Buf F) (stream : Stream S X) (clock : S → ℕ)
    (slack : ℕ) (timely : IsTimely stream clock slack) (service_uuid16 : ℕ) where
  query_once-Within :
      (t : ℕ) (state : List ℕ)
      → Within clock (exchange_time slack) (query_once b stream service_uuid16 t state)
  unfolding query_once
  query_once-Within t state =
      let time = exchange_time slack in
      let request = map_err encode (Encode.encode b (request_for t service_uuid16 state)) in
      then-Within clock 0 time time (lift request) _ (lift-Within clock request)
        (λ bytes. send_and_receive_pdu-Within stream clock slack timely bytes) (omega arith)

  fetch_page-Within :
      (t : ℕ) (state : List ℕ)
      → Within clock (exchange_time slack) (fetch_page n b stream service_uuid16 t state)
  unfolding fetch_page
  fetch_page-Within t state =
      let time = exchange_time slack in
      then-Within clock time 0 time (query_once b stream service_uuid16 t state) _
        (query_once-Within t state)
        (λ bytes.
          let framed = map_err (λ _. decode) (raw_response n bytes) in
          then-Within clock 0 0 0 (lift framed) _ (lift-Within clock framed)
            (λ p. lift-Within clock {E = QueryError} (ok p.1)) (omega arith))
        (omega arith)

  fetch_more-Within :
      (fuel t : ℕ) (acc state : List ℕ)
      → Within clock
          (fuel * exchange_time slack)
          (fetch_more n b stream service_uuid16 fuel t acc state)
  unfolding fetch_more
  fetch_more-Within fuel t acc [] s = omega arith
  fetch_more-Within zero t acc (c ∷ state) s = omega arith
  fetch_more-Within (suc fuel) t acc (c ∷ state) s =
      let time = exchange_time slack in
      let t' = next_transaction t in
      then-Within clock time (fuel * time) (suc fuel * time)
        (fetch_page n b stream service_uuid16 t' (c ∷ state)) _ (fetch_page-Within t' (c ∷ state))
        (λ raw. fetch_more-Within fuel t' (acc ++ raw.attribute_bytes) raw.continuation_state)
        (omega (arith, suc-mul fuel time)) s

  -- A query, whether it fails or not, ends within the time of one exchange for its first page and
  -- of one for each unit of fuel, if a wait ends when its timeout has passed, but for `slack`.
  pub find_rfcomm_channel-Within :
      (fuel : ℕ)
      → Within clock
          (suc fuel * exchange_time slack)
          (find_rfcomm_channel n b stream service_uuid16 fuel)
  unfolding find_rfcomm_channel
  find_rfcomm_channel-Within fuel =
      let time = exchange_time slack in
      then-Within clock time (fuel * time) (suc fuel * time)
        (fetch_page n b stream service_uuid16 0 []) _ (fetch_page-Within 0 [])
        (λ raw.
          then-Within clock (fuel * time) 0 (fuel * time)
            (fetch_more n b stream service_uuid16 fuel 0 raw.attribute_bytes raw.continuation_state)
            _ (fetch_more-Within fuel 0 raw.attribute_bytes raw.continuation_state)
            (λ bytes.
              let decoded = map_err (λ _. decode) (decode_attribute_lists n bytes) in
              then-Within clock 0 0 0 (lift decoded) _ (lift-Within clock decoded)
                (λ p. lift-Within clock {E = QueryError} (ok (find_map rfcomm_channel p.1)))
                (omega arith))
            (omega arith))
        (omega (arith, suc-mul fuel time))
