-- ===== src/UnitTests/PassingExchanges.antt =====
-- The tests of the exchanges and of the query end well, with both ends in memory.
use bluesdp.Prelude.{ℕ, List, Result, ok, [], ◌∷◌, refl}
use bluesdp.Prelude.Text.{String}
use bluesdp.Nom.Split.{split, read_uint}
use bluesdp.Codec.PduHeader.{pdu_header}
use bluesdp.Codec.Descriptor.{descriptor, resolve_size}
use bluesdp.Codec.Element.{push, payload_len, uint_value, uuid16_value, element_value, data_element}
use bluesdp.Codec.Encode.{encode, fixed_body}
use bluesdp.Codec.Response.{
  raw_response, attribute, attribute_pairs, attribute_list, record_attributes, collect_records,
  attribute_lists_of, decode_attribute_lists,
}
use bluesdp.Codec.Extract.{
  find_attribute, entry_channel, find_channel, stack_channel, rfcomm_channel,
}
use bluesdp.Transport.Socket.{param_len, send_and_receive_pdu}
use bluesdp.Transport.Session.{query_once, fetch_page, fetch_more, find_rfcomm_channel}
use bluesdp.Transport.Session.Server.{
  position, get_elem?, get_from, continuation_state_from_request_body,
}
use bluesdp.Transport.Connect.{connect_loop, connect_with_retry}
use bluesdp.Transport.Live.{connect_sdp}
use bluesdp.Public.{query_rfcomm_channel}
use bluesdp.Tests.Parsers.{parsers, buffer}
use bluesdp.Tests.Device
use bluesdp.Tests.Device.{World, bluer_over}
use bluesdp.Tests.Fixtures.{bytes, pbap_response, map_response}
use bluesdp.UnitTests.Public
use bluesdp.UnitTests.Live
use bluesdp.UnitTests.Hex.{
  trim_start, trim_end, trim, to_digit, from_digits, from_str_radix, decode_pairs, hex_decode,
}
use bluesdp.UnitTests.Memory.{in_memory, advance}
use bluesdp.UnitTests.Passing.{AllPass}
use bluesdp.UnitTests.Socket
use bluesdp.UnitTests.Session

socket_tests : AllPass (
    Socket.sends_request_and_reads_back_a_single_page_response in_memory
    ∷ Socket.reads_exactly_one_pdu_even_when_more_bytes_are_pending_in_the_stream in_memory
    ∷ [])
unfolding split param_len send_and_receive_pdu advance trim_start trim_end trim to_digit from_digits
    from_str_radix decode_pairs hex_decode
socket_tests = (refl, (refl, tt))

session_tests : AllPass (
    Session.finds_channel_13_for_single_page_pbap_response parsers buffer 0 in_memory
    ∷ Session.finds_channel_2_for_single_page_map_response parsers buffer 0 in_memory
    ∷ Session.drives_full_continuation_sequence_and_finds_all_12_records parsers buffer 7 in_memory
    ∷ Session.drives_all_eight_pages_and_requests_correct_continuation_each_time parsers buffer 7
        in_memory
    ∷ Session.single_page_response_makes_exactly_one_request parsers buffer 0 in_memory
    ∷ [])
unfolding split read_uint pdu_header descriptor resolve_size push payload_len uint_value
    uuid16_value element_value data_element encode fixed_body raw_response attribute attribute_pairs
    attribute_list record_attributes collect_records attribute_lists_of decode_attribute_lists
    find_attribute entry_channel find_channel stack_channel rfcomm_channel param_len
    send_and_receive_pdu query_once fetch_page fetch_more find_rfcomm_channel position get_elem?
    get_from continuation_state_from_request_body advance trim_start trim_end trim to_digit
    from_digits from_str_radix decode_pairs hex_decode
session_tests = (refl, (refl, (refl, (refl, (refl, tt)))))

-- A device that answers one query with a fixture.
abbrev device : List ℕ → World
device answer = record {
  refusals = 0;
  naps = [];
  pending = [];
  answers = answer ∷ [];
  requests = [];
}

abbrev address : Result (Unit {0}) String
address = ok "00:11:22:33:44:55"

device_tests : AllPass (
    Public.query_rfcomm_channel_finds_pbap_on_real_device parsers buffer
      (bluer_over ok Device.in_memory)
      0
      address
      (device (bytes pbap_response))
    ∷ Public.query_rfcomm_channel_finds_map_on_real_device parsers buffer
        (bluer_over ok Device.in_memory)
        0
        address
        (device (bytes map_response))
    ∷ Live.finds_pbap_channel_on_real_device parsers buffer
        (bluer_over ok Device.in_memory)
        0
        address
        (device (bytes pbap_response))
    ∷ Live.finds_map_channel_on_real_device parsers buffer
        (bluer_over ok Device.in_memory)
        0
        address
        (device (bytes map_response))
    ∷ [])
unfolding split read_uint pdu_header descriptor resolve_size push payload_len uint_value
    uuid16_value element_value data_element encode fixed_body raw_response attribute attribute_pairs
    attribute_list record_attributes collect_records attribute_lists_of decode_attribute_lists
    find_attribute entry_channel find_channel stack_channel rfcomm_channel param_len
    send_and_receive_pdu query_once fetch_page fetch_more find_rfcomm_channel connect_loop
    connect_with_retry connect_sdp query_rfcomm_channel
device_tests = (refl, (refl, (refl, (refl, tt))))
