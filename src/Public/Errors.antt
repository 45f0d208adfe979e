-- ===== src/Public/Errors.antt =====
-- The errors of `query_rfcomm_channel`.
use bluesdp.Prelude.{ℕ, ◌≡◌, ap, inl, inr, ok, err, map_err, map_err-eq-ok, map_err-eq-err}
use bluesdp.Prelude.Text.{String}
use bluesdp.Nom.{Nom, IsLawful}
use bluesdp.Buf.{Buf, IsAppending}
use bluesdp.Io.{lift, IsExact, >>=-eq-err}
use bluesdp.Transport.Connect.{RetriesExhausted, retries_exhausted, max_connect_attempts}
use bluesdp.Transport.Connect.Attempts.{Fails, connect_with_retry_cases}
use bluesdp.Transport.Socket.{SocketError}
use bluesdp.Transport.Session.{QueryError}
use bluesdp.Transport.Session.Failures.{Unanswered, Malformed, Failure, find_rfcomm_channel-Failure}
use bluesdp.Transport.Live.{Bluer, connect_sdp}
use bluesdp.Public.{
  Uuid16, SdpError, invalid_address, connect, transport, decode, from_query_error,
  retries_exhausted_text, query_rfcomm_channel, map_err_io,
}

module _ {E B F W H Address SocketAddr Invalid X : Type 0} (n : Nom E B) (b : Buf F)
    (u : Bluer W H Address SocketAddr Invalid X) (fuel : ℕ) (addr : String) (uuid : Uuid16)
    (w : W) where
  -- What has happened, for each error of a query.
  pub data Cause : SdpError → Type 0 where
    parsing : (i : Invalid) → u.parse addr ≡ err i → Cause (invalid_address (u.invalid_to_string i))
    connecting :
        (address : Address)
        → u.parse addr ≡ ok address
        → Fails u.sleep (u.connect (u.br_edr_socket_addr address 1)) max_connect_attempts w
        → Cause (connect (retries_exhausted_text retries_exhausted))
    exchanging :
        (address : Address) (handle : H) (e : SocketError)
        → u.parse addr ≡ ok address
        → (connect_sdp u address w).0 ≡ ok handle
        → Unanswered n b (u.stream handle) uuid.value (connect_sdp u address w).1 e
        → Cause (transport e)
    decoding :
        (address : Address) (handle : H)
        → u.parse addr ≡ ok address
        → (connect_sdp u address w).0 ≡ ok handle
        → Malformed n b (u.stream handle) uuid.value (connect_sdp u address w).1
        → Cause (decode "malformed SDP response")

  module _ (lawful : IsLawful n) (appending : IsAppending b)
      (exact : (handle : H) → IsExact (u.stream handle)) where
    connect-Cause :
        (address : Address) (d : RetriesExhausted)
        → u.parse addr ≡ ok address
        → (connect_sdp u address w).0 ≡ err d
        → Cause (connect (retries_exhausted_text d))
    unfolding connect_sdp
    connect-Cause address retries_exhausted parsed refused =
        let dial = u.connect (u.br_edr_socket_addr address 1) in
        elim (connect_with_retry_cases u.sleep dial w) [
          | inl (s, connected) ↦ let v = ap (λ r. r.0) connected in cc
          | inr (fails, _) ↦ connecting address parsed fails
        ]

    query-Cause :
        (address : Address) (handle : H) (q : QueryError)
        → u.parse addr ≡ ok address
        → (connect_sdp u address w).0 ≡ ok handle
        → Failure n b (u.stream handle) uuid.value (connect_sdp u address w).1 q
        → Cause (from_query_error q)
    unfolding from_query_error
    query-Cause address handle (_) parsed connected (Failure.exchanging {e} stops) =
        exchanging address handle e parsed connected stops
    query-Cause address handle (_) parsed connected (Failure.decoding malformed) =
        decoding address handle parsed connected malformed

    -- Over streams of bytes, by the error of a query: the address does not parse; or it parses and
    -- five attempts to connect fail; or, connected, a request that the loop comes to send is not
    -- answered, and the error is that of the first wait of the exchange that fails; or an answer
    -- is not laid out as a page, or all pages are there and no bytes at the front of their
    -- attribute bytes encode a response. There is no other error.
    pub query_rfcomm_channel-eq-err :
        (e : SdpError) → (query_rfcomm_channel n b u fuel addr uuid w).0 ≡ err e → Cause e
    unfolding query_rfcomm_channel
    query_rfcomm_channel-eq-err e h =
        let invalid : Invalid → SdpError = λ i. invalid_address (u.invalid_to_string i) in
        let refused : RetriesExhausted → SdpError = λ d. connect (retries_exhausted_text d) in
        elim (>>=-eq-err (lift (map_err invalid (u.parse addr))) _ w h) [
          | inl unparsed ↦
              let (i, parse_error, same) = map_err-eq-err invalid (u.parse addr) unparsed in
              rw (← same) (parsing i parse_error)
          | inr (address, parsed, h₁) ↦
              let address_read = map_err-eq-ok invalid (u.parse addr) parsed in
              elim (>>=-eq-err (map_err_io refused (connect_sdp u address)) _ w h₁) [
                | inl unconnected ↦
                    let (d, exhausted, same) =
                      map_err-eq-err refused (connect_sdp u address w).0 unconnected in
                    rw (← same) (connect-Cause address d address_read exhausted)
                | inr (handle, connected, h₂) ↦
                    let handle_opened =
                      map_err-eq-ok refused (connect_sdp u address w).0 connected in
                    let (q, failed, same) = map_err-eq-err from_query_error _ h₂ in
                    let why =
                      find_rfcomm_channel-Failure n b (u.stream handle) uuid.value
                        (connect_sdp u address w).1 lawful appending (exact handle) fuel q failed in
                    rw (← same) (query-Cause address handle q address_read handle_opened why)
              ]
        ]
