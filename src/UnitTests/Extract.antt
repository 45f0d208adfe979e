-- ===== src/UnitTests/Extract.antt =====
-- The tests of src/codec/extract.rs.
use bluesdp.Prelude.{ℕ, List, [], ◌∷◌, ◌>>=◌, ok, err, none, some}
use bluesdp.Prelude.Text.{String}
use bluesdp.Prelude.Equality.{nat_eq, optional_eq}
use bluesdp.Nom.{Nom}
use bluesdp.Codec.Element.{unsigned_int, uuid16, sequence, nil, cons}
use bluesdp.Codec.Response.{AttributeList, raw_response, decode_attribute_lists}
use bluesdp.Codec.Extract.{rfcomm_channel}
use bluesdp.UnitTests.Outcome.{Outcome, returned, assert_eq, or_return}
use bluesdp.UnitTests.Hex
use bluesdp.UnitTests.Hex.{include_str}
use bluesdp.Tests.Fixtures.{pbap_response, map_response}

abbrev pub hex_decode : List ℕ → List ℕ
hex_decode = Hex.hex_decode

-- `is_empty` and `remove(0)`
abbrev remove_first : List AttributeList → Outcome AttributeList
remove_first [] = err (returned "expected at least one attribute list")
remove_first (list ∷ lists) = ok list

module _ {E B : Type 0} (n : Nom E B) (to_string : E → String) where
  abbrev pub first_record_attributes : List ℕ → Outcome AttributeList
  first_record_attributes fixture = do
    let bytes = hex_decode fixture
    (_, raw) ← or_return "raw_response failed: " to_string (raw_response n bytes)
    (_, lists) ←
        or_return "decode_attribute_lists failed: " to_string
          (decode_attribute_lists n raw.attribute_bytes)
    remove_first lists

  abbrev pub finds_rfcomm_channel_13_in_pbap_fixture : Outcome (Unit {0})
  finds_rfcomm_channel_13_in_pbap_fixture = do
    attributes ← first_record_attributes (include_str pbap_response)
    assert_eq (rfcomm_channel attributes) (some 13)

  abbrev pub finds_rfcomm_channel_2_in_map_fixture : Outcome (Unit {0})
  finds_rfcomm_channel_2_in_map_fixture = do
    attributes ← first_record_attributes (include_str map_response)
    assert_eq (rfcomm_channel attributes) (some 2)

abbrev pub returns_none_when_protocol_descriptor_list_is_absent : Outcome (Unit {0})
returns_none_when_protocol_descriptor_list_is_absent = do
  let attributes = (0x0000, unsigned_int 0x1234) ∷ []
  assert_eq (rfcomm_channel attributes) none

abbrev pub returns_none_when_protocol_descriptor_list_has_no_rfcomm_entry : Outcome (Unit {0})
returns_none_when_protocol_descriptor_list_has_no_rfcomm_entry = do
  let attributes = (0x0004, sequence (cons (sequence (cons (uuid16 0x0100) nil)) nil)) ∷ []
  assert_eq (rfcomm_channel attributes) none

abbrev pub returns_none_when_protocol_descriptor_list_is_wrong_shape : Outcome (Unit {0})
returns_none_when_protocol_descriptor_list_is_wrong_shape = do
  let attributes = (0x0004, unsigned_int 0xff) ∷ []
  assert_eq (rfcomm_channel attributes) none
