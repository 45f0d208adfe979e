-- ===== src/Tests/Failing.antt =====
-- The theorem on the errors of a query, at a device that leaves a second page out.
use bluesdp.Prelude.{◌≡◌, refl, [], ◌∷◌, ok, err}
use bluesdp.Nom.Split.{split, read_uint}
use bluesdp.Codec.PduHeader.{pdu_header}
use bluesdp.Codec.Encode.{encode, fixed_body}
use bluesdp.Codec.Response.{raw_response}
use bluesdp.Transport.Connect.{connect_loop, connect_with_retry}
use bluesdp.Transport.Socket.{timeout, param_len, send_and_receive_pdu}
use bluesdp.Transport.Session.{query_once, fetch_page, fetch_more, find_rfcomm_channel}
use bluesdp.Transport.Live.{connect_sdp}
use bluesdp.Public.{pbap, transport, from_query_error, query_rfcomm_channel}
use bluesdp.Public.Errors.{Cause, query_rfcomm_channel-eq-err}
use bluesdp.Tests.Parsers.{parsers, parsers-IsLawful, buffer, buffer-IsAppending}
use bluesdp.Tests.Device.{World, in_bytes, in_bytes-IsExact, bluer_over}
use bluesdp.Tests.Pages.{first_page}

-- It refuses two connections.
abbrev half_answered : World
half_answered = record {
  refusals = 2;
  naps = [];
  pending = [];
  answers = first_page ∷ [];
  requests = [];
}

unanswered :
    (query_rfcomm_channel parsers buffer
      (bluer_over ok in_bytes)
      1
      "00:11:22:33:44:55"
      pbap
      half_answered).0
    ≡ err (transport timeout)
unfolding split read_uint pdu_header encode fixed_body raw_response connect_loop connect_with_retry
    param_len send_and_receive_pdu query_once fetch_page fetch_more find_rfcomm_channel connect_sdp
    from_query_error query_rfcomm_channel
unanswered = refl

query_rfcomm_channel-eq-err_example :
    Cause parsers buffer
      (bluer_over ok in_bytes)
      1
      "00:11:22:33:44:55"
      pbap
      half_answered
      (transport timeout)
query_rfcomm_channel-eq-err_example =
    query_rfcomm_channel-eq-err parsers buffer (bluer_over ok in_bytes) 1 "00:11:22:33:44:55" pbap
      half_answered parsers-IsLawful buffer-IsAppending (λ _. in_bytes-IsExact) (transport timeout)
      unanswered
