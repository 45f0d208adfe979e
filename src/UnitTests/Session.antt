-- ===== src/UnitTests/Session.antt =====
-- The tests of src/transport/session.rs. `fuel` is that of the continuation loop.
use bluesdp.Prelude
use bluesdp.Prelude.{ℕ, ◌+◌, List, [], ◌∷◌, ◌++◌, Option, none, some, ok}
use bluesdp.Prelude.Text.{String}
use bluesdp.Prelude.Equality.{nat_eq, vec_eq, optional_eq}
use bluesdp.Nom.{Nom}
use bluesdp.Buf.{Buf}
use bluesdp.Transport.Socket.{param_len}
use bluesdp.Transport.Session.{find_rfcomm_channel}
use bluesdp.Transport.Session.Server.{continuation_state_from_request_body}
use bluesdp.Public.{query_error_text}
use bluesdp.UnitTests.Outcome.{Outcome, assert_eq, or_return}
use bluesdp.UnitTests.Duplex.{Task, ended, ◌>>=◌, reads, writes, Runtime, joined}
use bluesdp.UnitTests.Hex
use bluesdp.UnitTests.Hex.{include_str}
use bluesdp.Tests.Fixtures.{
  pbap_response, map_response, browse_page0_response, browse_page1_response, browse_page2_response,
  browse_page3_response, browse_page4_response, browse_page5_response, browse_page6_response,
  browse_page7_response,
}

abbrev pub hex_decode : List ℕ → List ℕ
hex_decode = Hex.hex_decode

-- `pages`, which two tests build.
abbrev pub pages : List (List ℕ)
pages =
    hex_decode (include_str browse_page0_response)
    ∷ hex_decode (include_str browse_page1_response)
    ∷ hex_decode (include_str browse_page2_response)
    ∷ hex_decode (include_str browse_page3_response)
    ∷ hex_decode (include_str browse_page4_response)
    ∷ hex_decode (include_str browse_page5_response)
    ∷ hex_decode (include_str browse_page6_response)
    ∷ hex_decode (include_str browse_page7_response)
    ∷ []

abbrev pub expected_continuation_requests : List (List ℕ)
expected_continuation_requests =
    (0x00 ∷ 0xf3 ∷ [])
    ∷ (0x01 ∷ 0xe9 ∷ [])
    ∷ (0x02 ∷ 0xdf ∷ [])
    ∷ (0x03 ∷ 0xd5 ∷ [])
    ∷ (0x04 ∷ 0xcb ∷ [])
    ∷ (0x05 ∷ 0xbf ∷ [])
    ∷ (0x06 ∷ 0xb5 ∷ [])
    ∷ []

-- `if let Some(blob) = … { seen_continuations.push(blob) }`
abbrev pub push_if_some : List (List ℕ) → Option (List ℕ) → List (List ℕ)
push_if_some seen none = seen
push_if_some seen (some blob) = seen ++ blob ∷ []

-- The server tasks.
module _ {X : Type 0} (to_string : X → String) where
  abbrev pub answers_once : List ℕ → Task X (Unit {0})
  answers_once response = do
    _ ← reads to_string "server read failed: " 20
    _ ← writes to_string "server write failed: " response
    ended (ok tt)

  abbrev pub counts_requests : List ℕ → Task X ℕ
  counts_requests response = do
    _ ← reads to_string "server read failed: " 20
    _ ← writes to_string "server write failed: " response
    ended (ok (0 + 1))

  abbrev pub serves : List (List ℕ) → Task X (Unit {0})
  serves [] = ended (ok tt)
  serves (page ∷ pages') = do
    header ← reads to_string "server header read failed: " 5
    _ ← reads to_string "server body read failed: " (param_len header)
    _ ← writes to_string "server write failed: " page
    serves pages'

  abbrev pub serves_and_sees : List (List ℕ) → List (List ℕ) → Task X (List (List ℕ))
  serves_and_sees [] seen_continuations = ended (ok seen_continuations)
  serves_and_sees (page ∷ pages') seen_continuations = do
    header ← reads to_string "server header read failed: " 5
    body ← reads to_string "server body read failed: " (param_len header)
    _ ← writes to_string "server write failed: " page
    serves_and_sees pages'
        (push_if_some seen_continuations (continuation_state_from_request_body body))

module _ {E B F X J S : Type 0} (n : Nom E B) (b : Buf F) (fuel : ℕ) where
  -- `find_rfcomm_channel` against a task, and what both return.
  abbrev against : {A : Type 0} → Runtime X J A S → ℕ → Task X A → ℕ → Outcome (Option ℕ × A)
  against rt capacity task service_uuid16 =
      let (r, s) = find_rfcomm_channel n b rt.client service_uuid16 fuel (rt.spawn capacity task) in
      Prelude.◌>>=◌ (or_return "find_rfcomm_channel failed: " query_error_text r)
        λ channel. Prelude.◌>>=◌ (joined rt s) λ returned. ok (channel, returned)

  module _ (rt : Runtime X J (Unit {0}) S) where
    abbrev pub finds_channel_13_for_single_page_pbap_response : Outcome (Unit {0})
    finds_channel_13_for_single_page_pbap_response =
        let response = hex_decode (include_str pbap_response) in
        Prelude.◌>>=◌ (against rt 4096 (answers_once rt.io_to_string response) 0x112f)
          λ (channel, _). assert_eq channel (some 13)

    abbrev pub finds_channel_2_for_single_page_map_response : Outcome (Unit {0})
    finds_channel_2_for_single_page_map_response =
        let response = hex_decode (include_str map_response) in
        Prelude.◌>>=◌ (against rt 4096 (answers_once rt.io_to_string response) 0x1132)
          λ (channel, _). assert_eq channel (some 2)

    abbrev pub drives_full_continuation_sequence_and_finds_all_12_records : Outcome (Unit {0})
    drives_full_continuation_sequence_and_finds_all_12_records =
        Prelude.◌>>=◌ (against rt 8192 (serves rt.io_to_string pages) 0x1002)
          λ (channel, _). assert_eq channel (some 2)

  abbrev pub drives_all_eight_pages_and_requests_correct_continuation_each_time :
      Runtime X J (List (List ℕ)) S → Outcome (Unit {0})
  drives_all_eight_pages_and_requests_correct_continuation_each_time rt =
      Prelude.◌>>=◌ (against rt 8192 (serves_and_sees rt.io_to_string pages []) 0x1002)
        λ (channel, seen_continuations).
          Prelude.◌>>=◌ (assert_eq seen_continuations expected_continuation_requests)
            λ _. assert_eq channel (some 2)

  abbrev pub single_page_response_makes_exactly_one_request : Runtime X J ℕ S → Outcome (Unit {0})
  single_page_response_makes_exactly_one_request rt =
      let response = hex_decode (include_str pbap_response) in
      Prelude.◌>>=◌ (against rt 4096 (counts_requests rt.io_to_string response) 0x112f)
        λ (channel, request_count).
          Prelude.◌>>=◌ (assert_eq request_count 1) λ _. assert_eq channel (some 13)
