-- ===== src/Tests/Queries.antt =====
-- The theorems on queries, at concrete inputs.
use bluesdp.Prelude.{
  List, ◌+◌, ◌≡◌, ◌≢◌, refl, [], ◌∷◌, ◌++◌, ok, err, out_of_fuel, map_err, length, arith,
}
use bluesdp.Codec.Encode.{continuation_state_too_long}
use bluesdp.Transport.Connect.{retries_exhausted}
use bluesdp.Transport.Session.{QueryError, find_rfcomm_channel}
use bluesdp.Transport.Session.Pages.{requests_from}
use bluesdp.Transport.Session.Fragments.{Fragment, pages_of, find_rfcomm_channel-joined}
use bluesdp.Transport.Session.Query.{channel_of, find_rfcomm_channel-Paged}
use bluesdp.Transport.Session.Errors.{find_rfcomm_channel-ne-encode}
use bluesdp.Transport.Session.Endless.{IsUnfinished, find_rfcomm_channel-endless}
use bluesdp.Public.{pbap, connect, from_query_error, retries_exhausted_text, query_rfcomm_channel}
use bluesdp.Public.Outcomes.{query_rfcomm_channel-Paged, query_rfcomm_channel-connect}
use bluesdp.Transport.Session.Server.{server_sees, server_sees-Paged}
use bluesdp.Tests.Parsers.{parsers, parsers-IsLawful, buffer, buffer-IsAppending}
use bluesdp.Tests.Device.{
  World, in_memory, in_memory_peer, in_bytes, in_bytes-IsExact, bluer_over, handle,
}
use bluesdp.Tests.Pages.{
  first_attributes, last_attributes, attributes, first_page, last_page, first_raw,
  first_page-IsPage, pages,
}

-- Connected, with both pages to come.
abbrev ready : World
ready = record {
  refusals = 0;
  naps = [];
  pending = [];
  answers = first_page ∷ last_page ∷ [];
  requests = [];
}

-- The same device before a query, which it refuses twice, and after two delays.
abbrev refusing : World
refusing = record ready { refusals = 2 }

abbrev rested : World
rested = record ready { naps = 200 ∷ 200 ∷ [] }

find_rfcomm_channel-Paged_example :
    (s' : World) × (find_rfcomm_channel parsers buffer in_memory 0x112f 1 ready
      ≡ (channel_of parsers attributes, s'))
    × (s'.pending ≡ [])
    × (s'.answers ≡ [])
    × (s'.requests ≡ [] ++ requests_from 0x112f 0 ([] ∷ (0x00 ∷ 0x0a ∷ []) ∷ []))
find_rfcomm_channel-Paged_example =
    find_rfcomm_channel-Paged parsers parsers-IsLawful buffer buffer-IsAppending in_memory
      in_memory_peer 0x112f attributes pages 1 ready [] refl refl (omega arith)

find_rfcomm_channel-ne-encode_example :
    (find_rfcomm_channel parsers buffer in_bytes 0x112f 1 ready).0
    ≢ err (QueryError.encode (continuation_state_too_long 256))
find_rfcomm_channel-ne-encode_example =
    find_rfcomm_channel-ne-encode parsers parsers-IsLawful buffer buffer-IsAppending in_bytes
      in_bytes-IsExact 0x112f (continuation_state_too_long 256) 1 ready

first_page-IsUnfinished : IsUnfinished first_page
first_page-IsUnfinished = record {
  raw = first_raw;
  page = first_page-IsPage;
  c = 0x00;
  state = 0x0a ∷ [];
  goes = refl;
}

-- A device that sends the first page again and again.
abbrev repeating : World
repeating = record ready { answers = first_page ∷ first_page ∷ first_page ∷ [] }

find_rfcomm_channel-endless_example :
    (s' : World) × (find_rfcomm_channel parsers buffer in_memory 0x112f 2 repeating
      ≡ (out_of_fuel, s'))
    × (length s'.requests ≡ 0 + 3)
find_rfcomm_channel-endless_example =
    find_rfcomm_channel-endless parsers parsers-IsLawful buffer buffer-IsAppending in_memory
      in_memory_peer 0x112f 2 (first_page ∷ first_page ∷ first_page ∷ []) repeating []
      (first_page-IsUnfinished, (first_page-IsUnfinished, (first_page-IsUnfinished, tt))) refl refl
      refl

query_rfcomm_channel-Paged_example :
    (w' : World) × (query_rfcomm_channel parsers buffer
        (bluer_over ok in_memory)
        1
        "00:11:22:33:44:55"
        pbap
        refusing
      ≡ (map_err from_query_error (channel_of parsers attributes), w'))
    × (w'.requests ≡ [] ++ requests_from 0x112f 0 ([] ∷ (0x00 ∷ 0x0a ∷ []) ∷ []))
query_rfcomm_channel-Paged_example =
    query_rfcomm_channel-Paged parsers parsers-IsLawful buffer buffer-IsAppending
      (bluer_over ok in_memory) handle in_memory_peer 1 "00:11:22:33:44:55" pbap "00:11:22:33:44:55"
      2 refusing rested attributes [] refl (omega arith) (λ v p. cc, (λ v p. cc, tt)) refl pages
      refl refl (omega arith)

abbrev closed : World
closed = record ready { refusals = 6 }

query_rfcomm_channel-connect_example :
    query_rfcomm_channel parsers buffer (bluer_over ok in_memory) 1 "00:11:22:33:44:55" pbap closed
    ≡ (
      err (connect (retries_exhausted_text retries_exhausted)),
      record ready { refusals = 1; naps = 200 ∷ 200 ∷ 200 ∷ 200 ∷ [] },
    )
query_rfcomm_channel-connect_example =
    query_rfcomm_channel-connect parsers buffer (bluer_over ok in_memory) 1 "00:11:22:33:44:55" pbap
      closed "00:11:22:33:44:55" refl
      (λ v p. cc, (λ v p. cc, (λ v p. cc, (λ v p. cc, (λ v p. cc, tt)))))

server_sees-Paged_example :
    server_sees (requests_from 0x112f 0 ([] ∷ (0x00 ∷ 0x0a ∷ []) ∷ [])) ≡ (0x00 ∷ 0x0a ∷ []) ∷ []
server_sees-Paged_example = server_sees-Paged 0x112f 0 pages

-- The attribute bytes in two fragments.
abbrev cut : List Fragment
cut = record { transaction_id = 0; bytes = first_attributes; c = 0x00; state = 0x0a ∷ [] } ∷ []

abbrev in_two : World
in_two = record ready { answers = pages_of cut 1 last_attributes }

abbrev in_one : World
in_one = record ready { answers = pages_of [] 7 attributes }

find_rfcomm_channel-joined_example :
    (find_rfcomm_channel parsers buffer in_memory 0x112f 1 in_two).0
    ≡ (find_rfcomm_channel parsers buffer in_memory 0x112f 0 in_one).0
find_rfcomm_channel-joined_example =
    find_rfcomm_channel-joined parsers parsers-IsLawful buffer buffer-IsAppending in_memory
      in_memory_peer 0x112f cut [] 1 7 last_attributes attributes in_two in_one [] []
      ((omega arith, omega arith, omega arith), tt) tt (omega arith) (omega arith) (omega arith)
      (omega arith) refl refl refl refl refl
