-- ===== src/UnitTests/Socket.antt =====
-- The tests of src/transport/socket.rs.
use bluesdp.Prelude
use bluesdp.Prelude.{ℕ, List, [], ◌++◌, ok, length}
use bluesdp.Prelude.Text.{String}
use bluesdp.Prelude.Equality.{nat_eq, vec_eq}
use bluesdp.Transport.Socket.{send_and_receive_pdu}
use bluesdp.Public.{socket_error_text}
use bluesdp.UnitTests.Outcome.{Outcome, assert_eq, or_return}
use bluesdp.UnitTests.Duplex.{Task, ended, ◌>>=◌, reads, writes, Runtime, joined}
use bluesdp.UnitTests.Hex
use bluesdp.UnitTests.Hex.{include_str}
use bluesdp.Tests.Fixtures.{
  pbap_request, pbap_response, browse_page0_request, browse_page0_response, browse_page1_response,
}

abbrev pub hex_decode : List ℕ → List ℕ
hex_decode = Hex.hex_decode

-- The server tasks: they read a request of a known length, and write.
module _ {X : Type 0} (to_string : X → String) where
  abbrev pub receives : ℕ → List ℕ → Task X (List ℕ)
  receives request_len response = do
    received_request ← reads to_string "server read failed: " request_len
    _ ← writes to_string "server write failed: " response
    ended (ok received_request)

  abbrev pub writes_both_pages : ℕ → List ℕ → Task X (Unit {0})
  writes_both_pages request_len both_pages = do
    _ ← reads to_string "server read failed: " request_len
    _ ← writes to_string "server write failed: " both_pages
    ended (ok tt)

module _ {X J S : Type 0} (rt : Runtime X J (List ℕ) S) where
  abbrev pub sends_request_and_reads_back_a_single_page_response : Outcome (Unit {0})
  sends_request_and_reads_back_a_single_page_response =
      let response = hex_decode (include_str pbap_response) in
      let request = hex_decode (include_str pbap_request) in
      let s = rt.spawn 4096 (receives rt.io_to_string (length request) response) in
      let (r, s') = send_and_receive_pdu rt.client request s in
      Prelude.◌>>=◌ (or_return "send_and_receive_pdu failed: " socket_error_text r)
        λ received_response. Prelude.◌>>=◌ (joined rt s') λ received_request.
          Prelude.◌>>=◌ (assert_eq received_request request)
            λ _. assert_eq received_response response

module _ {X J S : Type 0} (rt : Runtime X J (Unit {0}) S) where
  abbrev pub reads_exactly_one_pdu_even_when_more_bytes_are_pending_in_the_stream :
      Outcome (Unit {0})
  reads_exactly_one_pdu_even_when_more_bytes_are_pending_in_the_stream =
      let page0 = hex_decode (include_str browse_page0_response) in
      let page1 = hex_decode (include_str browse_page1_response) in
      let request = hex_decode (include_str browse_page0_request) in
      let both_pages = page0 ++ page1 in
      let s = rt.spawn 8192 (writes_both_pages rt.io_to_string (length request) both_pages) in
      let (r, s') = send_and_receive_pdu rt.client request s in
      Prelude.◌>>=◌ (or_return "first send_and_receive_pdu failed: " socket_error_text r) λ first.
        Prelude.◌>>=◌ (assert_eq first page0) λ _.
          let (r', s'') = send_and_receive_pdu rt.client [] s' in
          Prelude.◌>>=◌ (or_return "second send_and_receive_pdu failed: " socket_error_text r')
            λ second. Prelude.◌>>=◌ (assert_eq second page1) λ _. joined rt s''
