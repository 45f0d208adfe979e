-- ===== src/Transport/Session/Errors.antt =====
-- The errors that a query returns.
use bluesdp.Prelude.{
  ℕ, zero, suc, ◌≤◌, ◌≡◌, ◌≢◌, List, [], ◌∷◌, ◌++◌, arith, Result, ok, err, out_of_fuel, length,
  map_err,
}
use bluesdp.Nom.{Nom, IsLawful}
use bluesdp.Buf.{Buf, IsAppending}
use bluesdp.Io.{>>=-ne-err, lift, Stream, IsExact}
use bluesdp.Codec.Encode.{EncodeError}
use bluesdp.Codec.Encode.Layout.{encode_short}
use bluesdp.Codec.Response.{RawServiceSearchAttributeResponse, raw_response, decode_attribute_lists}
use bluesdp.Transport.Socket.{SocketError, send_and_receive_pdu}
use bluesdp.Transport.Session.Received.{IsReceived, fetch_page-IsReceived}
use bluesdp.Transport.Session.{
  encode, socket, decode, request_for, next_transaction, query_once, fetch_page, fetch_more,
  find_rfcomm_channel,
}

socket-ne-encode :
    {A : Type 0} {e : EncodeError} (r : Result SocketError A) → map_err socket r ≢ err (encode e)
socket-ne-encode (ok a) p = cc
socket-ne-encode (err d) p = cc
socket-ne-encode out_of_fuel p = cc

decode-ne-encode :
    {E A : Type 0} {e : EncodeError} (r : Result E A) → map_err (λ _. decode) r ≢ err (encode e)
decode-ne-encode (ok a) p = cc
decode-ne-encode (err d) p = cc
decode-ne-encode out_of_fuel p = cc

module _ {E B F S X : Type 0} (n : Nom E B) (lawful : IsLawful n) (b : Buf F)
    (appending : IsAppending b) (stream : Stream S X) (exact : IsExact stream)
    (service_uuid16 : ℕ) where
  module _ (e : EncodeError) where
    fetched :
        (t : ℕ) (state : List ℕ) (s : S) (raw : RawServiceSearchAttributeResponse)
        → (fetch_page n b stream service_uuid16 t state s).0 ≡ ok raw
        → IsReceived raw
    fetched = fetch_page-IsReceived n lawful b stream exact service_uuid16

    query_once-ne-encode :
        (t : ℕ) (state : List ℕ) (s : S)
        → length state ≤ 255
        → (query_once b stream service_uuid16 t state s).0 ≢ err (encode e)
    unfolding query_once
    query_once-ne-encode t state s short =
        rw (encode_short b appending (request_for t service_uuid16 state) short)
          (socket-ne-encode (send_and_receive_pdu stream _ s).0)

    fetch_page-ne-encode :
        (t : ℕ) (state : List ℕ) (s : S)
        → length state ≤ 255
        → (fetch_page n b stream service_uuid16 t state s).0 ≢ err (encode e)
    unfolding fetch_page
    fetch_page-ne-encode t state s short =
        >>=-ne-err (encode e) (query_once b stream service_uuid16 t state) _ s
          (query_once-ne-encode t state s short)
          λ bytes _.
            >>=-ne-err (encode e) (lift (map_err (λ _. decode) (raw_response n bytes))) _ _
              (decode-ne-encode (raw_response n bytes)) λ _ _ p. cc

    fetch_more-ne-encode :
        (fuel t : ℕ) (acc state : List ℕ) (s : S)
        → length state ≤ 255
        → (fetch_more n b stream service_uuid16 fuel t acc state s).0 ≢ err (encode e)
    unfolding fetch_more
    fetch_more-ne-encode fuel t acc [] s short = λ p. cc
    fetch_more-ne-encode zero t acc (c ∷ state) s short = λ p. cc
    fetch_more-ne-encode (suc fuel) t acc (c ∷ state) s short =
        >>=-ne-err (encode e)
          (fetch_page n b stream service_uuid16 (next_transaction t) (c ∷ state)) _ s
          (fetch_page-ne-encode (next_transaction t) (c ∷ state) s short)
          λ raw got.
            fetch_more-ne-encode fuel (next_transaction t) (acc ++ raw.attribute_bytes)
              raw.continuation_state _
              (fetched (next_transaction t) (c ∷ state) s raw got).state_short

    -- Over a stream of bytes a query never fails to encode a request: a continuation state that a
    -- response has brought can always be sent back.
    pub find_rfcomm_channel-ne-encode :
        (fuel : ℕ) (s : S)
        → (find_rfcomm_channel n b stream service_uuid16 fuel s).0 ≢ err (encode e)
    unfolding find_rfcomm_channel
    find_rfcomm_channel-ne-encode fuel s =
        >>=-ne-err (encode e) (fetch_page n b stream service_uuid16 0 []) _ s
          (fetch_page-ne-encode 0 [] s (omega arith))
          λ raw got.
            >>=-ne-err (encode e)
              (fetch_more n b stream service_uuid16 fuel 0 raw.attribute_bytes
                raw.continuation_state)
              _ _
              (fetch_more-ne-encode fuel 0 raw.attribute_bytes raw.continuation_state _
                (fetched 0 [] s raw got).state_short)
              λ bytes _.
                >>=-ne-err (encode e)
                  (lift (map_err (λ _. decode) (decode_attribute_lists n bytes))) _ _
                  (decode-ne-encode (decode_attribute_lists n bytes)) λ _ _ p. cc
