-- ===== src/Tests/Runs.antt =====
-- The exchanges of src/tests/fixtures, run through the model.
use bluesdp.Prelude.{ℕ, ◌≡◌, refl, ap, List, [], ◌∷◌, Option, some, Result, ok, err}
use bluesdp.Prelude.Text.{String, decimal}
use bluesdp.Nom.Split.{split, read_uint}
use bluesdp.Codec.PduHeader.{pdu_header}
use bluesdp.Codec.Descriptor.{descriptor, resolve_size}
use bluesdp.Codec.Element.{push, payload_len, uint_value, uuid16_value, element_value, data_element}
use bluesdp.Codec.Encode.{encode, fixed_body}
use bluesdp.Codec.Response.{
  raw_response, attribute, attribute_pairs, attribute_list, record_attributes, collect_records,
  attribute_lists_of, decode_attribute_lists,
}
use bluesdp.Codec.Extract.{
  find_attribute, entry_channel, find_channel, stack_channel, rfcomm_channel,
}
use bluesdp.Transport.Connect.{connect_loop, connect_with_retry}
use bluesdp.Transport.Socket.{timeout, param_len, send_and_receive_pdu}
use bluesdp.Transport.Session.{request_for, query_once, fetch_page, fetch_more, find_rfcomm_channel}
use bluesdp.Transport.Live.{connect_sdp}
use bluesdp.Public.{
  Uuid16, pbap, map, SdpError, connect, transport, decode, from_query_error, retries_exhausted_text,
  query_rfcomm_channel,
}
use bluesdp.Public.Channels.{IsAnswered, query_rfcomm_channel-IsAnswered}
use bluesdp.Tests.Parsers.{parsers, parsers-IsLawful, buffer}
use bluesdp.Tests.Device.{World, Failed, Handle, in_memory, bluer_over}
use bluesdp.Tests.Fixtures
use bluesdp.Tests.Fixtures.{
  bytes, pbap_request, pbap_response, map_request, map_response, browse_page1_request,
}
use bluesdp.Tests.Pages.{first_page, last_page}

browse_page1_request_encodes :
    encode buffer (request_for 1 0x1002 (0x00 ∷ 0xf3 ∷ [])) ≡ ok (bytes browse_page1_request)
unfolding encode fixed_body
browse_page1_request_encodes = refl

abbrev device : ℕ → List (List ℕ) → World
device refusals answers = record {
  refusals = refusals;
  naps = [];
  pending = [];
  answers = answers;
  requests = [];
}

-- A query against a device with these answers, which refuses `refusals` connections first.
unfoldable run : ℕ → List (List ℕ) → Uuid16 → ℕ → Result SdpError (Option ℕ) × World
unfolding split read_uint pdu_header descriptor resolve_size push payload_len uint_value
    uuid16_value element_value data_element encode fixed_body raw_response attribute attribute_pairs
    attribute_list record_attributes collect_records attribute_lists_of decode_attribute_lists
    find_attribute entry_channel find_channel stack_channel rfcomm_channel connect_loop
    connect_with_retry param_len send_and_receive_pdu query_once fetch_page fetch_more
    find_rfcomm_channel connect_sdp from_query_error retries_exhausted_text decimal
    query_rfcomm_channel
run refusals answers uuid fuel =
    query_rfcomm_channel parsers buffer (bluer_over ok in_memory) fuel "00:11:22:33:44:55" uuid
      (device refusals answers)

pbap_channel : run 2 (bytes pbap_response ∷ []) pbap 0 ≡ (
  ok (some 13),
  record {
    refusals = 0;
    naps = 200 ∷ 200 ∷ [];
    pending = [];
    answers = [];
    requests = bytes pbap_request ∷ [];
  },
)
unfolding run
pbap_channel = refl

map_channel : run 0 (bytes map_response ∷ []) map 0 ≡ (
  ok (some 2),
  record { refusals = 0; naps = []; pending = []; answers = []; requests = bytes map_request ∷ [] },
)
unfolding run
map_channel = refl

two_pages : (run 0 (first_page ∷ last_page ∷ []) pbap 1).0 ≡ ok (some 13)
unfolding run
two_pages = refl

-- Without the last page the second request is not answered in time.
one_page_missing : (run 0 (first_page ∷ []) pbap 1).0 ≡ err (transport timeout)
unfolding run
one_page_missing = refl

-- The parameter length of this answer counts fewer bytes than its attributes.
cut_answer :
    (run 0 ((7 ∷ 0 ∷ 0 ∷ 0 ∷ 2 ∷ 0 ∷ 9 ∷ []) ∷ []) pbap 0).0 ≡ err (decode "malformed SDP response")
unfolding run
cut_answer = refl

six_refusals : run 6 [] pbap 0 ≡ (
  err (connect "connection failed after 5 attempts"),
  record {
    refusals = 1;
    naps = 200 ∷ 200 ∷ 200 ∷ 200 ∷ [];
    pending = [];
    answers = [];
    requests = [];
  },
)
unfolding run
six_refusals = refl

-- The search for PublicBrowseGroup, which is answered in eight pages.
browse_channel :
    run 0
      (bytes Fixtures.browse_page0_response
        ∷ bytes Fixtures.browse_page1_response
        ∷ bytes Fixtures.browse_page2_response
        ∷ bytes Fixtures.browse_page3_response
        ∷ bytes Fixtures.browse_page4_response
        ∷ bytes Fixtures.browse_page5_response
        ∷ bytes Fixtures.browse_page6_response
        ∷ bytes Fixtures.browse_page7_response
        ∷ [])
      (record { value = 0x1002 })
      7
    ≡ (
      ok (some 2),
      record {
        refusals = 0;
        naps = [];
        pending = [];
        answers = [];
        requests =
            bytes Fixtures.browse_page0_request
            ∷ bytes Fixtures.browse_page1_request
            ∷ bytes Fixtures.browse_page2_request
            ∷ bytes Fixtures.browse_page3_request
            ∷ bytes Fixtures.browse_page4_request
            ∷ bytes Fixtures.browse_page5_request
            ∷ bytes Fixtures.browse_page6_request
            ∷ bytes Fixtures.browse_page7_request
            ∷ [];
      },
    )
unfolding run
browse_channel = refl

pbap_found :
    (query_rfcomm_channel parsers buffer
      (bluer_over ok in_memory)
      0
      "00:11:22:33:44:55"
      pbap
      (device 2 (bytes pbap_response ∷ []))).0
    ≡ ok (some 13)
unfolding run
pbap_found = ap (λ p. p.0) pbap_channel

query_rfcomm_channel-IsAnswered_example :
    (address : String) × (handle : Handle) × (◌≡◌ {A = Result Failed String}
      (ok "00:11:22:33:44:55")
      (ok address))
    × ((connect_sdp (bluer_over ok in_memory) address (device 2 (bytes pbap_response ∷ []))).0
        ≡ ok handle)
    × IsAnswered parsers buffer in_memory 0x112f
        (connect_sdp (bluer_over ok in_memory) address (device 2 (bytes pbap_response ∷ []))).1
        13
query_rfcomm_channel-IsAnswered_example =
    query_rfcomm_channel-IsAnswered parsers parsers-IsLawful buffer (bluer_over ok in_memory) 0
      "00:11:22:33:44:55" pbap (device 2 (bytes pbap_response ∷ [])) 13 pbap_found
