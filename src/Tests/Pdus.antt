-- ===== src/Tests/Pdus.antt =====
-- The theorems on requests and responses, at concrete inputs.
use bluesdp.Prelude.{ℕ, ◌≡◌, ◌↔◌, ◌<◌, List, [], ◌∷◌, ok, err, arith}
use bluesdp.Codec.Encode.{ServiceSearchAttributeRequest, continuation_state_too_long, encode}
use bluesdp.Codec.Encode.Layout.{pdu_bytes, encode_short, encode-eq-err_iff}
use bluesdp.Codec.Encode.Readable.{IsReadable, encode-IsReadable}
use bluesdp.Codec.Response.{raw_response}
use bluesdp.Codec.Response.Framing.{IsFrame, raw_response-eq-ok_iff}
use bluesdp.Codec.Response.Refused.{raw_response-error_response}
use bluesdp.Transport.Session.{request_for}
use bluesdp.Tests.Parsers.{Failure, parsers, parsers-IsLawful, buffer, buffer-IsAppending}
use bluesdp.Tests.Pages.{first_page, first_raw}

-- The second request of a query.
abbrev second_request : ServiceSearchAttributeRequest
second_request = request_for 1 0x112f (0x00 ∷ 0x0a ∷ [])

encode_short_example : encode buffer second_request ≡ ok (pdu_bytes second_request)
encode_short_example = encode_short buffer buffer-IsAppending second_request (omega arith)

encode-IsReadable_example :
    (pdu : List ℕ) × (encode buffer second_request ≡ ok pdu) × IsReadable parsers second_request pdu
encode-IsReadable_example =
    encode-IsReadable parsers parsers-IsLawful buffer buffer-IsAppending second_request
      (omega arith) (omega arith) (omega arith) (omega arith) (omega arith)

encode-eq-err_iff_example :
    (encode buffer second_request ≡ err (continuation_state_too_long 2))
    ↔ ((255 < 2) × (continuation_state_too_long 2 ≡ continuation_state_too_long 2))
encode-eq-err_iff_example =
    encode-eq-err_iff buffer buffer-IsAppending second_request (continuation_state_too_long 2)

raw_response-eq-ok_iff_example :
    (raw_response parsers first_page ≡ ok ([], first_raw)) ↔ IsFrame first_page [] first_raw
raw_response-eq-ok_iff_example =
    raw_response-eq-ok_iff parsers parsers-IsLawful first_page [] first_raw

-- An ErrorResponse with the code of an invalid continuation state.
raw_response-error_response_example :
    (e : Failure) × (raw_response parsers (1 ∷ 0 ∷ 0 ∷ 0 ∷ 2 ∷ 0 ∷ 5 ∷ []) ≡ err e)
raw_response-error_response_example =
    raw_response-error_response parsers parsers-IsLawful 1 0 0 0 2 0 5
