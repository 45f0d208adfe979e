-- ===== src/Transport/Session/Query.antt =====
-- The query against a peer that sends a paged response.
use bluesdp.Prelude
use bluesdp.Prelude.{
  ℕ, zero, suc, ◌+◌, ◌*◌, ◌≤◌, ◌≡◌, refl, ap, ◌∙◌, sym, List, [], ◌∷◌, ◌++◌, append-nil,
  append_assoc, arith, Result, ok, length, length-append, map_err, find_map, Option,
}
use bluesdp.Nom.{Nom, IsLawful}
use bluesdp.Buf.{Buf, IsAppending}
use bluesdp.Io.{Io, ◌>>=◌, >>=_assoc, continue-lift, lift, Stream}
use bluesdp.Codec.Response.{decode_attribute_lists}
use bluesdp.Codec.Extract.{rfcomm_channel}
use bluesdp.Transport.Socket.Peer.{Peer}
use bluesdp.Transport.Session.{
  QueryError, decode, next_transaction, fetch_page, fetch_more, find_rfcomm_channel,
}
use bluesdp.Transport.Session.Pages.{Paged, Paged-pos, last, more, requests_from, fetch_page_lem}

-- The answer to a query, from all attribute bytes of the response.
abbrev pub channel_of : {E B : Type 0} → Nom E B → List ℕ → Result QueryError (Option ℕ)
channel_of n attribute_bytes =
    Prelude.◌>>=◌ (map_err (λ _. decode) (decode_attribute_lists n attribute_bytes))
      λ (_, lists). ok (find_map rfcomm_channel lists)

module _ {E B F S X : Type 0} (n : Nom E B) (lawful : IsLawful n) (b : Buf F)
    (appending : IsAppending b) (stream : Stream S X) (peer : Peer stream)
    (service_uuid16 : ℕ) where
  open peer use {pending, answers, requests}

  -- A request, and then the loop.
  abbrev pub fetch_from : ℕ → ℕ → List ℕ → List ℕ → Io S QueryError (List ℕ)
  fetch_from fuel t acc state = fetch_page n b stream service_uuid16 t state >>= λ raw.
      fetch_more n b stream service_uuid16 fuel t (acc ++ raw.attribute_bytes)
        raw.continuation_state

  fetch_from-Paged :
      {pdus states : List (List ℕ)} (attributes : List ℕ)
      → Paged pdus attributes states
      → (fuel t : ℕ) (acc state : List ℕ) (s : S) (later : List (List ℕ)) → length state ≤ 255
      → pending s ≡ []
      → answers s ≡ pdus ++ later
      → length pdus ≤ suc fuel
      → (s' : S) × (fetch_from fuel t acc state s ≡ (ok (acc ++ attributes), s'))
        × (pending s' ≡ [])
        × (answers s' ≡ later)
        × (requests s' ≡ requests s ++ requests_from service_uuid16 t (state ∷ states))
  unfolding fetch_more
  fetch_from-Paged attributes (last pdu raw page done whole) fuel t acc state s later short idle
        queued enough =
      let (s', fetched, p, a, q) =
        fetch_page_lem n lawful b appending stream peer service_uuid16 t state s pdu later raw short
          idle queued page in
      (s', rw (fetched, done, whole), p, a, q)
  fetch_from-Paged attributes (more pdu raw c next rest page goes pages whole) zero t acc state s
        later short idle queued enough =
      absurd (omega (arith, Paged-pos pages))
  fetch_from-Paged attributes (more pdu raw c next rest page goes pages whole) (suc f) t acc state s
        later short idle queued enough =
      let (s₁, fetched, p₁, a₁, q₁) =
        fetch_page_lem n lawful b appending stream peer service_uuid16 t state s pdu _ raw short
          idle queued page in
      let fits : length (c ∷ next) ≤ 255 = omega (arith, ap length goes, page.short) in
      let (s₂, others, p₂, a₂, q₂) =
        fetch_from-Paged rest pages f (next_transaction t) (acc ++ raw.attribute_bytes) (c ∷ next)
          s₁ later fits p₁ a₁ (omega arith) in
      (
        s₂,
        rw (fetched, goes, others, whole, append_assoc acc raw.attribute_bytes rest),
        p₂,
        a₂,
        q₂ ∙ rw (q₁, append_assoc (requests s)),
      )

  -- From a peer whose next answers are the pages of one response, however it is cut into pages,
  -- the query gets what the joined attribute bytes decode to, with fuel for one page each. It
  -- leaves the later answers unread, and it sends one request for each page: transaction IDs count
  -- from 0, and each request after the first carries the continuation state of the page before.
  pub find_rfcomm_channel-Paged :
      {pdus states : List (List ℕ)} (attributes : List ℕ)
      → Paged pdus attributes states
      → (fuel : ℕ) (s : S) (later : List (List ℕ)) → pending s ≡ []
      → answers s ≡ pdus ++ later
      → length pdus ≤ suc fuel
      → (s' : S) × (find_rfcomm_channel n b stream service_uuid16 fuel s
          ≡ (channel_of n attributes, s'))
        × (pending s' ≡ [])
        × (answers s' ≡ later)
        × (requests s' ≡ requests s ++ requests_from service_uuid16 0 ([] ∷ states))
  unfolding find_rfcomm_channel
  find_rfcomm_channel-Paged attributes pages fuel s later idle queued enough =
      let (s', fetched, p, a, q) =
        fetch_from-Paged attributes pages fuel 0 [] [] s later (omega arith) idle queued enough in
      let answer : List ℕ → Io S QueryError (Option ℕ) = λ attribute_bytes.
        lift (map_err (λ _. decode) (decode_attribute_lists n attribute_bytes)) >>= λ (_, lists).
        lift (ok (find_map rfcomm_channel lists)) in
      let joined = sym (>>=_assoc (fetch_page n b stream service_uuid16 0 []) _ answer s) in
      (
        s',
        joined
            ∙ rw fetched (
                continue-lift (map_err (λ _. decode) (decode_attribute_lists n attributes))
                  (λ (_, lists). ok (find_map rfcomm_channel lists)) s'),
        p,
        a,
        q,
      )
