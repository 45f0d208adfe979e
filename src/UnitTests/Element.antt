-- ===== src/UnitTests/Element.antt =====
-- The tests of src/codec/element.rs.
use bluesdp.Prelude.{List, [], ◌∷◌, ◌>>=◌, ℕ}
use bluesdp.Prelude.Text.{String}
use bluesdp.Prelude.Equality.{nat_eq, vec_eq}
use bluesdp.Nom.{Nom}
use bluesdp.Codec.Element.{
  DataElement, unsigned_int, uuid16, sequence, unknown, nil, cons, uuid16_value, data_element,
  fuel_for,
}
use bluesdp.Codec.Element.Equal.{data_element_eq}
use bluesdp.UnitTests.Outcome.{Outcome, assert, assert_eq, is_err, or_return}
use bluesdp.UnitTests.Hex.{codes, decode_pairs}

-- Here `hex_decode` does not trim its text.
abbrev pub hex_decode : String → List ℕ
hex_decode text = decode_pairs (codes text)

module _ {E B : Type 0} (n : Nom E B) (to_string : E → String) where
  abbrev pub parse : List ℕ → Outcome (List ℕ × DataElement)
  parse input =
      or_return "data_element parse failed: " to_string (data_element n (fuel_for input) input)

  abbrev pub decodes_a_bare_uint : Outcome (Unit {0})
  decodes_a_bare_uint = do
    (rest, el) ← parse (0x08 ∷ 0xff ∷ [])
    _ ← assert_eq el (unsigned_int 0xff)
    assert_eq rest []

  abbrev pub decodes_a_bare_uuid16 : Outcome (Unit {0})
  decodes_a_bare_uuid16 = do
    (rest, el) ← parse (0x19 ∷ 0x11 ∷ 0x2f ∷ [])
    _ ← assert_eq el (uuid16 0x112f)
    assert_eq rest []

  abbrev pub decodes_flat_sequence_of_one_uuid : Outcome (Unit {0})
  decodes_flat_sequence_of_one_uuid = do
    (rest, el) ← parse (0x35 ∷ 0x03 ∷ 0x19 ∷ 0x01 ∷ 0x00 ∷ [])
    _ ← assert_eq el (sequence (cons (uuid16 0x0100) nil))
    assert_eq rest []

  abbrev pub decodes_flat_sequence_of_uuid_and_uint : Outcome (Unit {0})
  decodes_flat_sequence_of_uuid_and_uint = do
    (rest, el) ← parse (0x35 ∷ 0x05 ∷ 0x19 ∷ 0x00 ∷ 0x03 ∷ 0x08 ∷ 0x0d ∷ [])
    _ ← assert_eq el (sequence (cons (uuid16 0x0003) (cons (unsigned_int 0x0d) nil)))
    assert_eq rest []

  abbrev pub decodes_nested_sequence_matching_protocol_descriptor_list_fixture : Outcome (Unit {0})
  decodes_nested_sequence_matching_protocol_descriptor_list_fixture = do
    let bytes = hex_decode "351135031901003505190003080d3503190008"
    (rest, el) ← parse bytes
    _ ← assert_eq el (
        sequence (
          cons (sequence (cons (uuid16 0x0100) nil)) (
            cons (sequence (cons (uuid16 0x0003) (cons (unsigned_int 0x0d) nil)))
              (cons (sequence (cons (uuid16 0x0008) nil)) nil))))
    assert_eq rest []

  abbrev pub skips_unknown_element_type_by_size_rule : Outcome (Unit {0})
  skips_unknown_element_type_by_size_rule = do
    (rest, el) ← parse (0x28 ∷ 0x01 ∷ [])
    _ ← assert_eq el unknown
    assert_eq rest []

  -- `b'h'` and `b'i'` are 104 and 105.
  abbrev pub skips_unknown_variable_length_element_type : Outcome (Unit {0})
  skips_unknown_variable_length_element_type = do
    (rest, el) ← parse (0x25 ∷ 0x02 ∷ 104 ∷ 105 ∷ [])
    _ ← assert_eq el unknown
    assert_eq rest []

  abbrev pub sequence_containing_unknown_element_still_parses_siblings : Outcome (Unit {0})
  sequence_containing_unknown_element_still_parses_siblings = do
    (rest, el) ← parse (0x35 ∷ 0x04 ∷ 0x28 ∷ 0x01 ∷ 0x08 ∷ 0x2a ∷ [])
    _ ← assert_eq el (sequence (cons unknown (cons (unsigned_int 0x2a) nil)))
    assert_eq rest []

  abbrev pub uuid16_value_reads_two_byte_value : Outcome (Unit {0})
  uuid16_value_reads_two_byte_value = do
    (rest, value) ← or_return "uuid16_value failed: " to_string (uuid16_value n (0x11 ∷ 0x2f ∷ []))
    _ ← assert_eq value 0x112f
    assert_eq rest []

  abbrev pub uuid16_value_rejects_wrong_length_body : Outcome (Unit {0})
  uuid16_value_rejects_wrong_length_body = do
    let result = uuid16_value n (0x11 ∷ [])
    assert (is_err result)

  abbrev pub empty_input_is_an_error : Outcome (Unit {0})
  empty_input_is_an_error = do let result = data_element n (fuel_for []) []; assert (is_err result)

  abbrev pub truncated_sequence_is_an_error : Outcome (Unit {0})
  truncated_sequence_is_an_error = do
    let input = 0x35 ∷ 0x05 ∷ 0x19 ∷ 0x01 ∷ []
    let result = data_element n (fuel_for input) input
    assert (is_err result)
