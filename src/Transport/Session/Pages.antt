-- ===== src/Transport/Session/Pages.antt =====
-- The pages of a response, as a server sends them, and the requests that fetch them.
use bluesdp.Prelude.{
  ℕ, ◌+◌, ◌≤◌, ◌<◌, ◌≡◌, List, [], ◌∷◌, ◌++◌, append-nil, arith, ok, length, length-append,
}
use bluesdp.Nom.{Nom, IsLawful}
use bluesdp.Buf.{Buf, IsAppending}
use bluesdp.Io.{Stream}
use bluesdp.Codec.Encode.Layout.{pdu_bytes, encode_short}
use bluesdp.Codec.Response.{RawServiceSearchAttributeResponse}
use bluesdp.Codec.Response.Framing.{IsFrame, raw_response-eq-ok_iff}
use bluesdp.Transport.Socket.Pdu.{IsPdu}
use bluesdp.Transport.Socket.Peer.{Peer, exchange}
use bluesdp.Transport.Socket.{send_and_receive_pdu}
use bluesdp.Transport.Session.{request_for, next_transaction, fetch_page, query_once}

-- A response PDU whose header gives its size, with at most 255 bytes of continuation state.
pub record IsPage (pdu : List ℕ) (raw : RawServiceSearchAttributeResponse) : Type 0 where
  pub frame : IsFrame pdu [] raw
  pub sized :
      raw.header.parameter_length ≡ 3 + length raw.attribute_bytes + length raw.continuation_state
  pub short : length raw.continuation_state ≤ 255

-- `pdus` is one response, paged: each page but the last ends in a continuation state. `attributes`
-- is what the pages carry, put together, and `states` are those states.
pub data Paged : List (List ℕ) → List ℕ → List (List ℕ) → Type 0 where
  last :
      (pdu : List ℕ) (raw : RawServiceSearchAttributeResponse) {attributes : List ℕ}
      → IsPage pdu raw
      → raw.continuation_state ≡ []
      → attributes ≡ raw.attribute_bytes
      → Paged (pdu ∷ []) attributes []
  more :
      (pdu : List ℕ) (raw : RawServiceSearchAttributeResponse) (c : ℕ) (state rest : List ℕ)
      {pdus states : List (List ℕ)} {attributes : List ℕ}
      → IsPage pdu raw
      → raw.continuation_state ≡ c ∷ state
      → Paged pdus rest states
      → attributes ≡ raw.attribute_bytes ++ rest
      → Paged (pdu ∷ pdus) attributes ((c ∷ state) ∷ states)

pub Paged-pos :
    {pdus states : List (List ℕ)} {attributes : List ℕ}
    → Paged pdus attributes states
    → 0 < length pdus
Paged-pos (last pdu raw page done whole) = omega arith
Paged-pos (more pdu raw c state rest page goes pages whole) = omega arith

-- The requests that carry these continuation states, with consecutive transaction IDs.
abbrev pub requests_from : ℕ → ℕ → List (List ℕ) → List (List ℕ)
requests_from service_uuid16 transaction_id [] = []
requests_from service_uuid16 transaction_id (state ∷ states) =
    pdu_bytes (request_for transaction_id service_uuid16 state)
    ∷ requests_from service_uuid16 (next_transaction transaction_id) states

pub page-IsPdu :
    (pdu : List ℕ) (raw : RawServiceSearchAttributeResponse) → IsPage pdu raw → IsPdu pdu
page-IsPdu pdu raw page =
    let f = page.frame in
    let state = raw.continuation_state in
    record {
      p = raw.header.pdu_id;
      t₁ = f.t₁;
      t₂ = f.t₂;
      l₁ = f.l₁;
      l₂ = f.l₂;
      body = f.a₁ ∷ f.a₂ ∷ (raw.attribute_bytes ++ (length state ∷ (state ++ [])));
      whole = f.whole;
      size = omega (
        arith,
        page.sized,
        f.parameter,
        length-append raw.attribute_bytes (length state ∷ (state ++ [])),
        length-append state [],
      );
    }

module _ {E B F S X : Type 0} (n : Nom E B) (lawful : IsLawful n) (b : Buf F)
    (appending : IsAppending b) (stream : Stream S X) (service_uuid16 : ℕ) where
  -- One page fetched, if the exchange brings it.
  pub fetch_page-IsPage :
      (transaction_id : ℕ) (state : List ℕ) (s s' : S) (pdu : List ℕ)
      (raw : RawServiceSearchAttributeResponse)
      → length state ≤ 255
      → IsPage pdu raw
      → send_and_receive_pdu stream (pdu_bytes (request_for transaction_id service_uuid16 state)) s
        ≡ (ok pdu, s')
      → fetch_page n b stream service_uuid16 transaction_id state s ≡ (ok raw, s')
  unfolding fetch_page query_once
  fetch_page-IsPage t state s s' pdu raw short page sent =
      let framed = (raw_response-eq-ok_iff n lawful pdu [] raw).1 page.frame in
      rw (encode_short b appending (request_for t service_uuid16 state) short, sent, framed)

module _ {E B F S X : Type 0} (n : Nom E B) (lawful : IsLawful n) (b : Buf F)
    (appending : IsAppending b) (stream : Stream S X) (peer : Peer stream)
    (service_uuid16 : ℕ) where
  open peer use {pending, answers, requests}

  -- One page fetched from a peer that has it next.
  pub fetch_page_lem :
      (transaction_id : ℕ) (state : List ℕ) (s : S) (pdu : List ℕ) (later : List (List ℕ))
      (raw : RawServiceSearchAttributeResponse)
      → length state ≤ 255
      → pending s ≡ []
      → answers s ≡ pdu ∷ later
      → IsPage pdu raw
      → (s' : S) × (fetch_page n b stream service_uuid16 transaction_id state s ≡ (ok raw, s'))
        × (pending s' ≡ [])
        × (answers s' ≡ later)
        × (requests s'
            ≡ requests s ++ pdu_bytes (request_for transaction_id service_uuid16 state) ∷ [])
  fetch_page_lem t state s pdu later raw short idle queued page =
      let front : pending s ++ pdu ≡ pdu ++ [] = rw (idle, append-nil) in
      let (s', sent, p, a, q) =
        exchange stream peer (pdu_bytes (request_for t service_uuid16 state)) s pdu pdu [] later
          queued front (page-IsPdu pdu raw page) in
      let fetched =
        fetch_page-IsPage n lawful b appending stream service_uuid16 t state s s' pdu raw short page
          sent in
      (s', fetched, p, a, q)
