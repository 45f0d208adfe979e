-- ===== src/Public/Outcomes.antt =====
-- The outcomes of `query_rfcomm_channel`.
use bluesdp.Prelude.{
  ℕ, suc, ◌<◌, ◌≤◌, ◌≡◌, ◌≢◌, ap, List, [], ◌∷◌, ◌++◌, Result, ok, err, out_of_fuel, map_err,
  length,
}
use bluesdp.Prelude.Text.{String}
use bluesdp.Nom.{Nom, IsLawful}
use bluesdp.Buf.{Buf, IsAppending}
use bluesdp.Io.{Io, IsExact, lift, >>=-ne-err}
use bluesdp.Codec.Encode.{EncodeError}
use bluesdp.Transport.Connect.{RetriesExhausted, retries_exhausted, max_connect_attempts}
use bluesdp.Transport.Connect.Attempts.{
  Fails, before, connect_with_retry-succeeds, connect_with_retry-Fails,
}
use bluesdp.Transport.Socket.Peer.{Peer}
use bluesdp.Transport.Session.{QueryError}
use bluesdp.Transport.Session.Pages.{Paged, requests_from}
use bluesdp.Transport.Session.Query.{channel_of, find_rfcomm_channel-Paged}
use bluesdp.Transport.Session.Errors.{find_rfcomm_channel-ne-encode}
use bluesdp.Transport.Live.{Bluer, sdp_psm, connect_sdp}
use bluesdp.Public.{
  Uuid16, invalid_address, connect, encode, from_query_error, retries_exhausted_text,
  query_rfcomm_channel, map_err_io,
}

-- One attempt to connect to the SDP server of a device.
abbrev pub dial :
    {W H Address SocketAddr Invalid X : Type 0}
    → Bluer W H Address SocketAddr Invalid X
    → Address
    → Io W X H
dial u address = u.connect (u.br_edr_socket_addr address sdp_psm)

module _ {E B F W H Address SocketAddr Invalid X : Type 0} (n : Nom E B) (b : Buf F)
    (u : Bluer W H Address SocketAddr Invalid X) (fuel : ℕ) (addr : String) (uuid : Uuid16)
    (w : W) where
  -- An address that does not parse is refused, and nothing outside the program is touched.
  pub query_rfcomm_channel-invalid_address :
      (e : Invalid)
      → u.parse addr ≡ err e
      → query_rfcomm_channel n b u fuel addr uuid w
        ≡ (err (invalid_address (u.invalid_to_string e)), w)
  unfolding query_rfcomm_channel
  query_rfcomm_channel-invalid_address e h = rw h

  -- If the address parses and the five attempts to connect to PSM 1 of the device fail, the error
  -- is that of connecting, and nothing is done after the fifth.
  pub query_rfcomm_channel-connect :
      (address : Address)
      → u.parse addr ≡ ok address
      → Fails u.sleep (dial u address) 5 w
      → query_rfcomm_channel n b u fuel addr uuid w ≡ (
        err (connect (retries_exhausted_text retries_exhausted)),
        (dial u address (before u.sleep (dial u address) 4 w)).1,
      )
  unfolding query_rfcomm_channel connect_sdp
  query_rfcomm_channel-connect address h fails =
      rw (h, connect_with_retry-Fails u.sleep (dial u address) w fails)

-- The whole query. If the address parses, one of the first five attempts connects, and the device
-- then answers with the pages of one response, with fuel for each page, the result is the channel
-- that the joined attribute bytes decode to (or the error of decoding them), and the device was
-- sent one request for each page.
pub query_rfcomm_channel-Paged :
    {E B F W H Address SocketAddr Invalid X : Type 0} (n : Nom E B) (lawful : IsLawful n)
    (b : Buf F) (appending : IsAppending b) (u : Bluer W H Address SocketAddr Invalid X)
    (handle : H) (peer : Peer (u.stream handle)) (fuel : ℕ) (addr : String) (uuid : Uuid16)
    (address : Address) (k : ℕ) (w ready : W) {pdus states : List (List ℕ)} (attributes : List ℕ)
    (later : List (List ℕ))
    → u.parse addr ≡ ok address
    → k < max_connect_attempts
    → Fails u.sleep (dial u address) k w
    → dial u address (before u.sleep (dial u address) k w) ≡ (ok handle, ready)
    → Paged pdus attributes states
    → peer.pending ready ≡ []
    → peer.answers ready ≡ pdus ++ later
    → length pdus ≤ suc fuel
    → (w' : W) × (query_rfcomm_channel n b u fuel addr uuid w
        ≡ (map_err from_query_error (channel_of n attributes), w'))
      × (peer.requests w' ≡ peer.requests ready ++ requests_from uuid.value 0 ([] ∷ states))
unfolding query_rfcomm_channel connect_sdp
query_rfcomm_channel-Paged n lawful b appending u handle peer fuel addr uuid address k w ready
      attributes later h in_time fails connected pages idle queued enough =
    let opened =
      connect_with_retry-succeeds u.sleep (dial u address) k w handle in_time fails
        (ap (λ p. p.0) connected) in
    let (w', found, _, _, q) =
      find_rfcomm_channel-Paged n lawful b appending (u.stream handle) peer uuid.value attributes
        pages fuel ready later idle queued enough in
    (w', rw (h, opened, connected, found), q)

map_err-ne-encode :
    {A : Type 0} (e : EncodeError) (r : Result QueryError A)
    → r ≢ err (QueryError.encode e)
    → map_err from_query_error r ≢ err (encode e)
unfolding from_query_error
map_err-ne-encode e (ok a) h p = cc
map_err-ne-encode e (err (QueryError.encode d)) h p = h (cc)
map_err-ne-encode e (err (QueryError.socket d)) h p = cc
map_err-ne-encode e (err QueryError.decode) h p = cc
map_err-ne-encode e out_of_fuel h p = cc

invalid-ne-encode :
    {I A : Type 0} (text : I → String) (e : EncodeError) (r : Result I A)
    → map_err (λ i. invalid_address (text i)) r ≢ err (encode e)
invalid-ne-encode text e (ok a) p = cc
invalid-ne-encode text e (err i) p = cc
invalid-ne-encode text e out_of_fuel p = cc

connect-ne-encode :
    {A : Type 0} (e : EncodeError) (r : Result RetriesExhausted A)
    → map_err (λ d. connect (retries_exhausted_text d)) r ≢ err (encode e)
connect-ne-encode e (ok a) p = cc
connect-ne-encode e (err i) p = cc
connect-ne-encode e out_of_fuel p = cc

-- Over streams of bytes no query returns `SdpError::Encode`, whatever the device does.
pub query_rfcomm_channel-ne-encode :
    {E B F W H Address SocketAddr Invalid X : Type 0} (n : Nom E B) (lawful : IsLawful n)
    (b : Buf F) (appending : IsAppending b) (u : Bluer W H Address SocketAddr Invalid X)
    → ((handle : H) → IsExact (u.stream handle))
    → (fuel : ℕ) (addr : String) (uuid : Uuid16) (w : W) (e : EncodeError)
    → (query_rfcomm_channel n b u fuel addr uuid w).0 ≢ err (encode e)
unfolding query_rfcomm_channel
query_rfcomm_channel-ne-encode n lawful b appending u exact fuel addr uuid w e =
    >>=-ne-err (encode e)
      (lift (map_err (λ i. invalid_address (u.invalid_to_string i)) (u.parse addr))) _ w
      (invalid-ne-encode u.invalid_to_string e (u.parse addr))
      λ address _.
        >>=-ne-err (encode e)
          (map_err_io (λ d. connect (retries_exhausted_text d)) (connect_sdp u address)) _ w
          (connect-ne-encode e (connect_sdp u address w).0)
          λ handle _. map_err-ne-encode e _ (
            find_rfcomm_channel-ne-encode n lawful b appending (u.stream handle) (exact handle)
              uuid.value e fuel _)
