-- ===== src/Public.antt =====
-- src/public.rs: the entry point of the crate, its error type, and the texts of all errors.
pub mod Outcomes
pub mod Errors
pub mod Channels
pub mod Time
use bluesdp.Prelude.{ℕ, Option, Result, map_err}
use bluesdp.Prelude.Text.{String, ◌<>◌, decimal}
use bluesdp.Nom.{Nom}
use bluesdp.Buf.{Buf}
use bluesdp.Io.{Io, ◌>>=◌, lift}
use bluesdp.Codec.Encode.{EncodeError, continuation_state_too_long, body_too_long}
use bluesdp.Transport.Connect.{RetriesExhausted, retries_exhausted, max_connect_attempts}
use bluesdp.Transport.Socket.{SocketError, io, timeout}
use bluesdp.Transport.Session.{QueryError, find_rfcomm_channel}
use bluesdp.Transport.Live.{Bluer, connect_sdp}

pub record Uuid16 : Type 0 where
  pub value : ℕ

abbrev pub pbap : Uuid16
pbap = record { value = 0x112f }

abbrev pub map : Uuid16
map = record { value = 0x1132 }

pub data SdpError : Type 0 where
  invalid_address : String → SdpError
  connect : String → SdpError
  encode : EncodeError → SdpError
  transport : SocketError → SdpError
  decode : String → SdpError

-- `From<QueryError>`
unfoldable pub from_query_error : QueryError → SdpError
from_query_error (QueryError.encode e) = encode e
from_query_error (QueryError.socket e) = transport e
from_query_error QueryError.decode = decode "malformed SDP response"

-- The `Display` implementations.
unfoldable pub encode_error_text : EncodeError → String
encode_error_text (continuation_state_too_long len) =
    "continuation state is " <> decimal len <> " bytes, exceeds the 255-byte limit"
encode_error_text (body_too_long len) =
    "request body is " <> decimal len <> " bytes, exceeds the 65535-byte limit"

unfoldable pub retries_exhausted_text : RetriesExhausted → String
retries_exhausted_text retries_exhausted =
    "connection failed after " <> decimal max_connect_attempts <> " attempts"

unfoldable pub socket_error_text : SocketError → String
socket_error_text io = "I/O error during SDP exchange"
socket_error_text timeout = "timed out waiting for SDP response"

unfoldable pub query_error_text : QueryError → String
query_error_text (QueryError.encode e) = "encode error: " <> encode_error_text e
query_error_text (QueryError.socket e) = "transport error: " <> socket_error_text e
query_error_text QueryError.decode = "failed to decode SDP response"

unfoldable pub sdp_error_text : SdpError → String
sdp_error_text (invalid_address msg) = "invalid Bluetooth address: " <> msg
sdp_error_text (connect msg) = "failed to connect to SDP server: " <> msg
sdp_error_text (encode e) = "failed to encode SDP request: " <> encode_error_text e
sdp_error_text (transport e) = "SDP transport error: " <> socket_error_text e
sdp_error_text (decode msg) = "failed to decode SDP response: " <> msg

-- `map_err` on the result of a wait.
abbrev pub map_err_io : {W E F A : Type 0} → (E → F) → Io W E A → Io W F A
map_err_io f m w = let (r, w') = m w in (map_err f r, w')

module _ {E B F W H Address SocketAddr Invalid X : Type 0} (n : Nom E B) (b : Buf F)
    (u : Bluer W H Address SocketAddr Invalid X) (fuel : ℕ) where
  unfoldable pub query_rfcomm_channel : String → Uuid16 → Io W SdpError (Option ℕ)
  query_rfcomm_channel addr service_uuid = do
    address ← lift (map_err (λ e. invalid_address (u.invalid_to_string e)) (u.parse addr))
    handle ← map_err_io (λ e. connect (retries_exhausted_text e)) (connect_sdp u address)
    map_err_io from_query_error (find_rfcomm_channel n b (u.stream handle) service_uuid.value fuel)
