-- ===== src/UnitTests/Response.antt =====
-- The tests of src/codec/response.rs.
use bluesdp.Prelude.{ℕ, List, [], ◌∷◌, ◌>>=◌, ◌==◌, Option, none, some, length, if◌then◌else◌}
use bluesdp.Prelude.Text.{String}
use bluesdp.Prelude.Equality.{nat_eq, vec_eq, optional_eq}
use bluesdp.Nom.{Nom}
use bluesdp.Codec.Element.{DataElement, unsigned_int, uuid16, sequence, nil, cons}
use bluesdp.Codec.Element.Equal.{data_element_eq}
use bluesdp.Codec.Response.{
  AttributeList, RawServiceSearchAttributeResponse, raw_response, decode_attribute_lists,
}
use bluesdp.UnitTests.Outcome.{Outcome, assert, assert_eq, is_err, or_return, ok_or}
use bluesdp.UnitTests.Hex
use bluesdp.UnitTests.Hex.{include_str}
use bluesdp.Tests.Fixtures.{
  pbap_response, map_response, browse_page0_response, browse_page7_response,
}

abbrev pub hex_decode : List ℕ → List ℕ
hex_decode = Hex.hex_decode

abbrev pub find_attr : AttributeList → ℕ → Option DataElement
find_attr [] id = none
find_attr ((attr_id, v) ∷ list) id = if attr_id == id then some v else find_attr list id

-- `slice::first`
abbrev first : {A : Type 0} → List A → Option A
first [] = none
first (x ∷ _) = some x

-- The protocol stack of L2CAP, RFCOMM on a channel, and OBEX.
abbrev stack : ℕ → DataElement
stack channel = sequence (
    cons (sequence (cons (uuid16 0x0100) nil)) (
      cons (sequence (cons (uuid16 0x0003) (cons (unsigned_int channel) nil)))
        (cons (sequence (cons (uuid16 0x0008) nil)) nil)))

module _ {E B : Type 0} (n : Nom E B) (to_string : E → String) where
  abbrev pub parse_raw : List ℕ → Outcome (List ℕ × RawServiceSearchAttributeResponse)
  parse_raw input = or_return "raw_response parse failed: " to_string (raw_response n input)

  abbrev pub decodes_pbap_response_fixture : Outcome (Unit {0})
  decodes_pbap_response_fixture = do
    let bytes = hex_decode (include_str pbap_response)
    (rest, raw) ← parse_raw bytes
    _ ← assert_eq rest []
    _ ← assert_eq raw.header.pdu_id 0x07
    _ ← assert_eq raw.header.transaction_id 0x0000
    _ ← assert_eq raw.continuation_state []
    (leftover, attribute_lists) ←
        or_return "decode_attribute_lists failed: " to_string
          (decode_attribute_lists n raw.attribute_bytes)
    _ ← assert_eq leftover []
    _ ← assert_eq (length attribute_lists) 1
    list ← ok_or "expected at least one attribute list" (first attribute_lists)
    _ ← assert_eq (find_attr list 0x0000) (some (unsigned_int 0x4f49112f))
    _ ← assert_eq (find_attr list 0x0001) (some (sequence (cons (uuid16 0x112f) nil)))
    assert_eq (find_attr list 0x0004) (some (stack 0x0d))

  abbrev pub decodes_map_response_fixture : Outcome (Unit {0})
  decodes_map_response_fixture = do
    let bytes = hex_decode (include_str map_response)
    (rest, raw) ← parse_raw bytes
    _ ← assert_eq rest []
    (leftover, attribute_lists) ←
        or_return "decode_attribute_lists failed: " to_string
          (decode_attribute_lists n raw.attribute_bytes)
    _ ← assert_eq leftover []
    _ ← assert_eq (length attribute_lists) 1
    list ← ok_or "expected at least one attribute list" (first attribute_lists)
    _ ← assert_eq (find_attr list 0x0001) (some (sequence (cons (uuid16 0x1132) nil)))
    assert_eq (find_attr list 0x0004) (some (stack 0x02))

  abbrev pub decode_attribute_lists_rejects_a_record_with_an_odd_element_count : Outcome (Unit {0})
  decode_attribute_lists_rejects_a_record_with_an_odd_element_count = do
    let bytes = 0x35 ∷ 0x08 ∷ 0x35 ∷ 0x06 ∷ 0x08 ∷ 0x00 ∷ 0x08 ∷ 0x00 ∷ 0x08 ∷ 0xff ∷ []
    let result = decode_attribute_lists n bytes
    assert (is_err result)

  abbrev pub raw_response_frames_a_continuation_fragment_without_decoding_it : Outcome (Unit {0})
  raw_response_frames_a_continuation_fragment_without_decoding_it = do
    let bytes = hex_decode (include_str browse_page0_response)
    (rest, raw) ← parse_raw bytes
    _ ← assert_eq rest []
    _ ← assert_eq raw.continuation_state (0x00 ∷ 0xf3 ∷ [])
    assert (is_err (decode_attribute_lists n raw.attribute_bytes))

  abbrev pub raw_response_reports_empty_continuation_state_on_final_page : Outcome (Unit {0})
  raw_response_reports_empty_continuation_state_on_final_page = do
    let bytes = hex_decode (include_str browse_page7_response)
    (_, raw) ← parse_raw bytes
    assert_eq raw.continuation_state []
