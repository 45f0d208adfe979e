-- ===== src/Transport/Session.antt =====
-- src/transport/session.rs: the query, with its continuation pages.
pub mod Pages
pub mod Query
pub mod Received
pub mod Preserved
pub mod Errors
pub mod Failures
pub mod Endless
pub mod Answer
pub mod Server
pub mod Fragments
pub mod Steps
use bluesdp.Prelude.{
  ℕ, zero, suc, ◌+◌, ◌%◌, ◌^◌, List, [], ◌∷◌, ◌++◌, Option, Result, ok, err, out_of_fuel, map_err,
  find_map,
}
use bluesdp.Nom.{Nom}
use bluesdp.Buf.{Buf}
use bluesdp.Io.{Io, ◌>>=◌, lift, Stream}
use bluesdp.Codec.Encode
use bluesdp.Codec.Encode.{EncodeError, ServiceSearchAttributeRequest}
use bluesdp.Codec.Response.{
  AttributeList, RawServiceSearchAttributeResponse, raw_response, decode_attribute_lists,
}
use bluesdp.Codec.Extract.{rfcomm_channel}
use bluesdp.Transport.Socket.{SocketError, send_and_receive_pdu}

abbrev pub maximum_attribute_byte_count : ℕ
maximum_attribute_byte_count = 0xffff

abbrev pub protocol_descriptor_list_attribute_range : ℕ
protocol_descriptor_list_attribute_range = 0x0000ffff

pub data QueryError : Type 0 where
  encode : EncodeError → QueryError
  socket : SocketError → QueryError
  decode : QueryError

abbrev pub request_for : ℕ → ℕ → List ℕ → ServiceSearchAttributeRequest
request_for transaction_id service_uuid16 continuation_state = record {
  transaction_id = transaction_id;
  service_uuid16 = service_uuid16;
  maximum_attribute_byte_count = maximum_attribute_byte_count;
  attribute_id_range = protocol_descriptor_list_attribute_range;
  continuation_state = continuation_state;
}

-- `u16::wrapping_add(1)`
abbrev pub next_transaction : ℕ → ℕ
next_transaction t = (t + 1) % 2 ^ 16

module _ {F S X : Type 0} (b : Buf F) (stream : Stream S X) (service_uuid16 : ℕ) where
  unfoldable pub query_once : ℕ → List ℕ → Io S QueryError (List ℕ)
  query_once transaction_id continuation_state = do
    let request = request_for transaction_id service_uuid16 continuation_state
    bytes ← lift (map_err encode (Encode.encode b request))
    λ s. let (r, s') = send_and_receive_pdu stream bytes s in (map_err socket r, s')

module _ {E B F S X : Type 0} (n : Nom E B) (b : Buf F) (stream : Stream S X)
    (service_uuid16 : ℕ) where
  -- The response to one request, framed.
  unfoldable pub fetch_page : ℕ → List ℕ → Io S QueryError RawServiceSearchAttributeResponse
  fetch_page transaction_id continuation_state = do
    bytes ← query_once b stream service_uuid16 transaction_id continuation_state
    (_, raw) ← lift (map_err (λ _. decode) (raw_response n bytes))
    lift (ok raw)

  -- The `while` loop; its fuel is a number of continuation pages.
  unfoldable pub fetch_more : ℕ → ℕ → List ℕ → List ℕ → Io S QueryError (List ℕ)
  fetch_more fuel transaction_id attribute_bytes [] s = (ok attribute_bytes, s)
  fetch_more zero transaction_id attribute_bytes (c ∷ state) s = (out_of_fuel, s)
  fetch_more (suc fuel) transaction_id attribute_bytes (c ∷ state) s =
      (fetch_page (next_transaction transaction_id) (c ∷ state) >>= λ raw.
      fetch_more fuel (next_transaction transaction_id) (attribute_bytes ++ raw.attribute_bytes)
        raw.continuation_state)
        s

  unfoldable pub find_rfcomm_channel : ℕ → Io S QueryError (Option ℕ)
  find_rfcomm_channel fuel = do
    first_raw ← fetch_page 0 []
    attribute_bytes ← fetch_more fuel 0 first_raw.attribute_bytes first_raw.continuation_state
    (_, attribute_lists) ← lift (map_err (λ _. decode) (decode_attribute_lists n attribute_bytes))
    lift (ok (find_map rfcomm_channel attribute_lists))
