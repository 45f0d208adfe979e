-- ===== src/UnitTests/Passing.antt =====
-- The tests of the sources end well.
use bluesdp.Prelude.{ℕ, List, [], ◌∷◌, ◌≡◌, refl, ok, err, All}
use bluesdp.Prelude.Text.{String}
use bluesdp.Nom.Split.{split, read_uint}
use bluesdp.Codec.PduHeader.{pdu_header}
use bluesdp.Codec.Descriptor.{descriptor, resolve_size}
use bluesdp.Codec.Element.{push, payload_len, uint_value, uuid16_value, element_value, data_element}
use bluesdp.Codec.Element.Equal.{element_eq}
use bluesdp.Codec.Encode.{encode, fixed_body}
use bluesdp.Codec.Response.{
  raw_response, attribute, attribute_pairs, attribute_list, record_attributes, collect_records,
  attribute_lists_of, decode_attribute_lists,
}
use bluesdp.Codec.Extract.{
  find_attribute, entry_channel, find_channel, stack_channel, rfcomm_channel,
}
use bluesdp.Transport.Connect.{connect_loop, connect_with_retry}
use bluesdp.Transport.Live.{Bluer}
use bluesdp.Public.{sdp_error_text, query_rfcomm_channel}
use bluesdp.Tests.Parsers.{Failure, parsers, buffer}
use bluesdp.UnitTests.Outcome.{Outcome}
use bluesdp.UnitTests.Hex.{
  trim_start, trim_end, trim, to_digit, from_digits, from_str_radix, decode_pairs, hex_decode,
}
use bluesdp.UnitTests.PduHeader
use bluesdp.UnitTests.Descriptor
use bluesdp.UnitTests.Element
use bluesdp.UnitTests.Encode
use bluesdp.UnitTests.Response
use bluesdp.UnitTests.Extract
use bluesdp.UnitTests.Connect
use bluesdp.UnitTests.Public
use bluesdp.UnitTests.Public.{starts_with, contains_codes}

abbrev pub AllPass : List (Outcome (Unit {0})) → Type 0
AllPass = All λ (outcome : Outcome (Unit {0})). outcome ≡ ok tt

-- No test shows the text of an error of nom.
abbrev text : Failure → String
text _ = "malformed"

pdu_header_tests : AllPass (
    PduHeader.decodes_service_search_attribute_response_header parsers text
    ∷ PduHeader.decodes_service_search_attribute_request_header parsers text
    ∷ PduHeader.decodes_nonzero_transaction_id_from_continuation_page parsers text
    ∷ PduHeader.truncated_header_is_an_error parsers text
    ∷ PduHeader.empty_input_is_an_error parsers text
    ∷ [])
unfolding read_uint split pdu_header
pdu_header_tests = (refl, (refl, (refl, (refl, (refl, tt)))))

descriptor_tests : AllPass (
    Descriptor.nil_has_fixed_zero_size parsers text
    ∷ Descriptor.uint_size_index_0_is_one_byte parsers text
    ∷ Descriptor.uint_size_index_2_is_four_bytes parsers text
    ∷ Descriptor.uuid_size_index_1_is_two_bytes parsers text
    ∷ Descriptor.uuid_size_index_4_is_sixteen_bytes parsers text
    ∷ Descriptor.sequence_size_index_5_reads_one_byte_length parsers text
    ∷ Descriptor.sequence_size_index_6_reads_two_byte_length parsers text
    ∷ Descriptor.text_string_size_index_7_reads_four_byte_length parsers text
    ∷ Descriptor.empty_input_is_an_error parsers text
    ∷ [])
unfolding descriptor resolve_size
descriptor_tests = (refl, (refl, (refl, (refl, (refl, (refl, (refl, (refl, (refl, tt)))))))))

element_tests : AllPass (
    Element.decodes_a_bare_uint parsers text
    ∷ Element.decodes_a_bare_uuid16 parsers text
    ∷ Element.decodes_flat_sequence_of_one_uuid parsers text
    ∷ Element.decodes_flat_sequence_of_uuid_and_uint parsers text
    ∷ Element.decodes_nested_sequence_matching_protocol_descriptor_list_fixture parsers text
    ∷ Element.skips_unknown_element_type_by_size_rule parsers text
    ∷ Element.skips_unknown_variable_length_element_type parsers text
    ∷ Element.sequence_containing_unknown_element_still_parses_siblings parsers text
    ∷ Element.uuid16_value_reads_two_byte_value parsers text
    ∷ Element.uuid16_value_rejects_wrong_length_body parsers text
    ∷ Element.empty_input_is_an_error parsers text
    ∷ Element.truncated_sequence_is_an_error parsers text
    ∷ [])
unfolding read_uint split descriptor resolve_size push payload_len uint_value uuid16_value
    element_value data_element element_eq to_digit from_digits from_str_radix decode_pairs
element_tests = (
  refl,
  (refl, (refl, (refl, (refl, (refl, (refl, (refl, (refl, (refl, (refl, (refl, tt))))))))))),
)

encode_tests : AllPass (
    Encode.encodes_pbap_request_matching_fixture buffer
    ∷ Encode.encodes_map_request_matching_fixture buffer
    ∷ Encode.encodes_browse_first_page_request_matching_fixture buffer
    ∷ Encode.encodes_browse_continuation_page_request_matching_fixture buffer
    ∷ Encode.rejects_continuation_state_over_255_bytes buffer
    ∷ [])
unfolding encode fixed_body trim_start trim_end trim to_digit from_digits from_str_radix
    decode_pairs hex_decode
encode_tests = (refl, (refl, (refl, (refl, (refl, tt)))))

response_tests : AllPass (
    Response.decodes_pbap_response_fixture parsers text
    ∷ Response.decodes_map_response_fixture parsers text
    ∷ Response.decode_attribute_lists_rejects_a_record_with_an_odd_element_count parsers text
    ∷ Response.raw_response_frames_a_continuation_fragment_without_decoding_it parsers text
    ∷ Response.raw_response_reports_empty_continuation_state_on_final_page parsers text
    ∷ [])
unfolding split read_uint pdu_header descriptor resolve_size push payload_len uint_value
    uuid16_value element_value data_element element_eq raw_response attribute attribute_pairs
    attribute_list record_attributes collect_records attribute_lists_of decode_attribute_lists
    trim_start trim_end trim to_digit from_digits from_str_radix decode_pairs hex_decode
response_tests = (refl, (refl, (refl, (refl, (refl, tt)))))

extract_tests : AllPass (
    Extract.finds_rfcomm_channel_13_in_pbap_fixture parsers text
    ∷ Extract.finds_rfcomm_channel_2_in_map_fixture parsers text
    ∷ Extract.returns_none_when_protocol_descriptor_list_is_absent
    ∷ Extract.returns_none_when_protocol_descriptor_list_has_no_rfcomm_entry
    ∷ Extract.returns_none_when_protocol_descriptor_list_is_wrong_shape
    ∷ [])
unfolding split read_uint pdu_header descriptor resolve_size push payload_len uint_value
    uuid16_value element_value data_element raw_response attribute attribute_pairs attribute_list
    record_attributes collect_records attribute_lists_of decode_attribute_lists find_attribute
    entry_channel find_channel stack_channel rfcomm_channel trim_start trim_end trim to_digit
    from_digits from_str_radix decode_pairs hex_decode
extract_tests = (refl, (refl, (refl, (refl, (refl, tt)))))

-- Whatever the clock is.
connect_tests :
    {C : Type 0} (sleep : ℕ → C → C) (clock : C)
    → AllPass (
        Connect.succeeds_immediately_when_first_attempt_succeeds sleep clock
        ∷ Connect.succeeds_after_transient_failures_within_the_attempt_budget sleep clock
        ∷ Connect.gives_up_after_max_attempts sleep clock
        ∷ [])
unfolding connect_loop connect_with_retry
connect_tests sleep clock = (refl, (refl, (refl, tt)))

public_tests : AllPass (
    Public.uuid16_pbap_constant_matches_assigned_number
    ∷ Public.uuid16_map_constant_matches_assigned_number ∷ Public.uuid16_values_are_distinguishable
    ∷ Public.sdp_error_invalid_address_message_is_descriptive
    ∷ Public.sdp_error_connect_message_is_descriptive
    ∷ Public.sdp_error_decode_message_is_descriptive ∷ [])
unfolding sdp_error_text starts_with contains_codes
public_tests = (refl, (refl, (refl, (refl, (refl, (refl, tt))))))

-- Whatever the device does, if bluer takes neither text for an address.
address_tests :
    {W H Address SocketAddr Invalid X : Type 0} (u : Bluer W H Address SocketAddr Invalid X)
    (fuel : ℕ) (w : W) (i j : Invalid)
    → u.parse "not-a-bluetooth-address" ≡ err i
    → u.parse "" ≡ err j
    → AllPass (
        Public.query_rfcomm_channel_rejects_invalid_address parsers buffer u fuel w
        ∷ Public.query_rfcomm_channel_rejects_empty_address parsers buffer u fuel w
        ∷ [])
unfolding query_rfcomm_channel
address_tests u fuel w i j invalid empty = (rw invalid refl, (rw empty refl, tt))
