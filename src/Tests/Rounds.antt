-- ===== src/Tests/Rounds.antt =====
-- The theorems on the rounds of the continuation loop, at concrete inputs.
use bluesdp.Prelude.{◌≡◌, ◌≢◌, ◌↔◌, ℕ, refl, List, [], ◌∷◌, ok, some, Option, Result, out_of_fuel}
use bluesdp.Nom.Split.{split, read_uint}
use bluesdp.Codec.PduHeader.{pdu_header}
use bluesdp.Codec.Encode.{encode, fixed_body}
use bluesdp.Codec.Response.{raw_response}
use bluesdp.Transport.Socket.{param_len, send_and_receive_pdu}
use bluesdp.Transport.Session.{QueryError, query_once, fetch_page, find_rfcomm_channel}
use bluesdp.Transport.Session.Steps.{Loop, Reach, start, first, Ends}
use bluesdp.Transport.Session.Steps.Decides.{find_rfcomm_channel-Ends}
use bluesdp.Transport.Session.Steps.Invariant.{Inv, Reach-Inv}
use bluesdp.Tests.Parsers.{parsers, parsers-IsLawful, buffer}
use bluesdp.Tests.Device.{World, in_memory, in_bytes, in_bytes-IsExact}
use bluesdp.Tests.Fixtures.{bytes, browse_page1_request}
use bluesdp.Tests.Pages.{first_attributes, first_page, last_page, first_raw}

abbrev ready : World
ready = record {
  refusals = 0;
  naps = [];
  pending = [];
  answers = first_page ∷ last_page ∷ [];
  requests = [];
}

abbrev first_request : List ℕ
first_request = bytes "060000000f350319112fffff35050a0000ffff00"

-- After the first page.
abbrev one_page : World
one_page = record ready { answers = last_page ∷ []; requests = first_request ∷ [] }

abbrev loop : Loop World
loop = record {
  transaction_id = 0;
  attribute_bytes = first_attributes;
  continuation_state = 0x00 ∷ 0x0a ∷ [];
  outside = one_page;
}

fetched : fetch_page parsers buffer in_bytes 0x112f 0 [] ready ≡ (ok first_raw, one_page)
unfolding split read_uint pdu_header encode fixed_body raw_response param_len send_and_receive_pdu
    query_once fetch_page
fetched = refl

reached : Reach parsers buffer in_bytes 0x112f ready 0 loop
reached = start (first first_raw one_page fetched refl)

Reach-Inv_example : Inv 0 loop
Reach-Inv_example =
    Reach-Inv parsers parsers-IsLawful buffer in_bytes in_bytes-IsExact 0x112f ready reached

abbrev answered : World
answered = record ready { answers = []; requests = first_request ∷ bytes browse_page1_request ∷ [] }

find_rfcomm_channel-Ends_example :
    ((fuel : ℕ) × (find_rfcomm_channel parsers buffer in_memory 0x112f fuel ready
        ≡ (ok (some 13), answered))
      × (◌≢◌ {A = Result QueryError (Option ℕ)} (ok (some 13)) out_of_fuel))
    ↔ Ends parsers buffer in_memory 0x112f ready (ok (some 13)) answered
find_rfcomm_channel-Ends_example =
    find_rfcomm_channel-Ends parsers buffer in_memory 0x112f parsers-IsLawful ready (ok (some 13))
      answered
