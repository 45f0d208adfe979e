-- ===== src/Transport/Socket/Errors.antt =====
-- The errors of `send_and_receive_pdu`.
use bluesdp.Prelude.{ℕ, ◌≡◌, refl, sym, ◌⊎◌, inl, inr, List, ok, err, out_of_fuel, err-injective}
use bluesdp.Io.{>>=-eq-err, elapsed, Stream, Timed}
use bluesdp.Transport.Socket.{
  SocketError, io, timeout, settle, param_len, write, read, response_timeout, pdu_header_len,
  send_and_receive_pdu,
}

-- How a wait failed, and the error for it: its deadline passed, or the stream had an error.
abbrev pub FailsWith : {X A : Type 0} → Timed X A → SocketError → Type 0
FailsWith {X} outcome e =
    ((outcome ≡ err elapsed) × (e ≡ timeout)) ⊎ ((x : X) × (outcome ≡ ok (err x)) × (e ≡ io))

settle-eq-err :
    {X A : Type 0} (outcome : Timed X A) (e : SocketError)
    → settle outcome ≡ err e
    → FailsWith outcome e
settle-eq-err (ok (ok a)) e h = cc
settle-eq-err (ok (err x)) e h = inr (x, refl, sym (err-injective h))
settle-eq-err (ok out_of_fuel) e h = cc
settle-eq-err (err elapsed) e h = inl (refl, sym (err-injective h))
settle-eq-err out_of_fuel e h = cc

module _ {S X : Type 0} (stream : Stream S X) (request : List ℕ) (s : S) where
  -- The state before the header is read, and before the body is.
  abbrev pub written : S
  written = (stream.write_all response_timeout request s).1

  abbrev pub opened : S
  opened = (stream.read_exact response_timeout pdu_header_len written).1

  -- The first wait that fails, and the error for it.
  pub data ExchangeFails (e : SocketError) : Type 0 where
    writing : FailsWith (stream.write_all response_timeout request s).0 e → ExchangeFails e
    reading_header :
        (write stream request s).0 ≡ ok tt
        → FailsWith (stream.read_exact response_timeout pdu_header_len written).0 e
        → ExchangeFails e
    reading_body :
        (header : List ℕ)
        → (write stream request s).0 ≡ ok tt
        → (read stream pdu_header_len written).0 ≡ ok header
        → FailsWith (stream.read_exact response_timeout (param_len header) opened).0 e
        → ExchangeFails e

  -- An error of an exchange is that of the first of its three waits that fails, the write, the read
  -- of the header and that of the body: `Timeout` if the 20 seconds of that wait passed, and `Io`
  -- if the stream had an error.
  pub send_and_receive_pdu-eq-err :
      (e : SocketError) → (send_and_receive_pdu stream request s).0 ≡ err e → ExchangeFails e
  unfolding send_and_receive_pdu
  send_and_receive_pdu-eq-err e h = elim (>>=-eq-err (write stream request) _ s h) [
    | inl failed ↦ writing (settle-eq-err _ e failed)
    | inr (tt, sent, h₁) ↦ elim (>>=-eq-err (read stream pdu_header_len) _ written h₁) [
      | inl failed ↦ reading_header sent (settle-eq-err _ e failed)
      | inr (header, got, h₂) ↦ elim (>>=-eq-err (read stream (param_len header)) _ opened h₂) [
        | inl failed ↦ reading_body header sent got (settle-eq-err _ e failed)
        | inr (body, _, h₃) ↦ cc
      ]
    ]
  ]
