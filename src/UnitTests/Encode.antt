-- ===== src/UnitTests/Encode.antt =====
-- The tests of src/codec/encode.rs.
use bluesdp.Prelude.{ℕ, zero, suc, List, [], ◌∷◌, ◌>>=◌, Bool, false, ◌==◌, err, map_err}
use bluesdp.Prelude.Equality.{nat_eq, vec_eq}
use bluesdp.Buf.{Buf}
use bluesdp.Codec.Encode.{
  ServiceSearchAttributeRequest, EncodeError, continuation_state_too_long, body_too_long, encode,
}
use bluesdp.Public.{encode_error_text}
use bluesdp.UnitTests.Outcome.{Outcome, returned, assert, assert_eq, result_eq}
use bluesdp.UnitTests.Hex
use bluesdp.UnitTests.Hex.{include_str}
use bluesdp.Tests.Fixtures.{pbap_request, map_request, browse_page0_request, browse_page1_request}

abbrev pub hex_decode : List ℕ → List ℕ
hex_decode = Hex.hex_decode

-- `vec![value; len]`
abbrev pub repeat : ℕ → ℕ → List ℕ
repeat value zero = []
repeat value (suc len) = value ∷ repeat value len

-- The derived `PartialEq` of `EncodeError`.
abbrev pub encode_error_eq : EncodeError → EncodeError → Bool
encode_error_eq (continuation_state_too_long a) (continuation_state_too_long b) = a == b
encode_error_eq (body_too_long a) (body_too_long b) = a == b
encode_error_eq _ _ = false

module _ {B : Type 0} (b : Buf B) where
  abbrev pub encodes_pbap_request_matching_fixture : Outcome (Unit {0})
  encodes_pbap_request_matching_fixture = do
    let request : ServiceSearchAttributeRequest = record {
      transaction_id = 0x0000;
      service_uuid16 = 0x112f;
      maximum_attribute_byte_count = 0xffff;
      attribute_id_range = 0x0000ffff;
      continuation_state = [];
    }
    let expected = hex_decode (include_str pbap_request)
    actual ← map_err (λ e. returned (encode_error_text e)) (encode b request)
    assert_eq actual expected

  abbrev pub encodes_map_request_matching_fixture : Outcome (Unit {0})
  encodes_map_request_matching_fixture = do
    let request : ServiceSearchAttributeRequest = record {
      transaction_id = 0x0000;
      service_uuid16 = 0x1132;
      maximum_attribute_byte_count = 0xffff;
      attribute_id_range = 0x0000ffff;
      continuation_state = [];
    }
    let expected = hex_decode (include_str map_request)
    actual ← map_err (λ e. returned (encode_error_text e)) (encode b request)
    assert_eq actual expected

  abbrev pub encodes_browse_first_page_request_matching_fixture : Outcome (Unit {0})
  encodes_browse_first_page_request_matching_fixture = do
    let request : ServiceSearchAttributeRequest = record {
      transaction_id = 0x0000;
      service_uuid16 = 0x1002;
      maximum_attribute_byte_count = 0xffff;
      attribute_id_range = 0x0000ffff;
      continuation_state = [];
    }
    let expected = hex_decode (include_str browse_page0_request)
    actual ← map_err (λ e. returned (encode_error_text e)) (encode b request)
    assert_eq actual expected

  abbrev pub encodes_browse_continuation_page_request_matching_fixture : Outcome (Unit {0})
  encodes_browse_continuation_page_request_matching_fixture = do
    let request : ServiceSearchAttributeRequest = record {
      transaction_id = 0x0001;
      service_uuid16 = 0x1002;
      maximum_attribute_byte_count = 0xffff;
      attribute_id_range = 0x0000ffff;
      continuation_state = 0x00 ∷ 0xf3 ∷ [];
    }
    let expected = hex_decode (include_str browse_page1_request)
    actual ← map_err (λ e. returned (encode_error_text e)) (encode b request)
    assert_eq actual expected

  abbrev pub rejects_continuation_state_over_255_bytes : Outcome (Unit {0})
  rejects_continuation_state_over_255_bytes = do
    let request : ServiceSearchAttributeRequest = record {
      transaction_id = 0;
      service_uuid16 = 0x1002;
      maximum_attribute_byte_count = 0xffff;
      attribute_id_range = 0x0000ffff;
      continuation_state = repeat 0 256;
    }
    assert (
        result_eq encode_error_eq vec_eq.eq (encode b request)
          (err (continuation_state_too_long 256)))
