-- ===== src/Transport/Session/Endless.antt =====
-- A peer whose response does not end.
use bluesdp.Prelude.{
  ℕ, zero, suc, ◌+◌, ◌≤◌, ◌≡◌, ap, ◌∙◌, sym, List, [], ◌∷◌, ◌++◌, arith, ok, out_of_fuel, length,
  length-append, map_err, find_map, Option, All,
}
use bluesdp.Nom.{Nom, IsLawful}
use bluesdp.Buf.{Buf, IsAppending}
use bluesdp.Io.{Io, ◌>>=◌, >>=_assoc, lift, Stream}
use bluesdp.Codec.Response.{RawServiceSearchAttributeResponse, decode_attribute_lists}
use bluesdp.Codec.Extract.{rfcomm_channel}
use bluesdp.Transport.Socket.Peer.{Peer}
use bluesdp.Transport.Session.{
  QueryError, decode, next_transaction, fetch_page, fetch_more, find_rfcomm_channel,
}
use bluesdp.Transport.Session.Pages.{IsPage, fetch_page_lem}
use bluesdp.Transport.Session.Query.{fetch_from}

-- A page that says that there is another.
pub record IsUnfinished (pdu : List ℕ) : Type 0 where
  pub raw : RawServiceSearchAttributeResponse
  pub page : IsPage pdu raw
  pub c : ℕ
  pub state : List ℕ
  pub goes : raw.continuation_state ≡ c ∷ state

module _ {E B F S X : Type 0} (n : Nom E B) (lawful : IsLawful n) (b : Buf F)
    (appending : IsAppending b) (stream : Stream S X) (peer : Peer stream)
    (service_uuid16 : ℕ) where
  open peer use {pending, answers, requests}

  fetch_from-IsUnfinished :
      (fuel : ℕ) (pdus : List (List ℕ)) (t : ℕ) (acc state : List ℕ) (s : S) (later : List (List ℕ))
      → All IsUnfinished pdus
      → length pdus ≡ suc fuel
      → length state ≤ 255
      → pending s ≡ []
      → answers s ≡ pdus ++ later
      → (s' : S) × (fetch_from n lawful b appending stream peer service_uuid16 fuel t acc state s
          ≡ (out_of_fuel, s'))
        × (length (requests s') ≡ length (requests s) + suc fuel)
  unfolding fetch_more
  fetch_from-IsUnfinished zero (pdu ∷ []) t acc state s later (u, _) size short idle queued =
      let (s₁, fetched, p₁, a₁, q₁) =
        fetch_page_lem n lawful b appending stream peer service_uuid16 t state s pdu _ u.raw short
          idle queued u.page in
      (s₁, rw (fetched, u.goes), ap length q₁ ∙ length-append (requests s) _)
  fetch_from-IsUnfinished (suc f) (pdu ∷ pdus) t acc state s later (u, others) size short idle
        queued =
      let (s₁, fetched, p₁, a₁, q₁) =
        fetch_page_lem n lawful b appending stream peer service_uuid16 t state s pdu _ u.raw short
          idle queued u.page in
      let fits : length (u.c ∷ u.state) ≤ 255 = omega (arith, ap length u.goes, u.page.short) in
      let (s₂, stuck, q₂) =
        fetch_from-IsUnfinished f pdus (next_transaction t) (acc ++ u.raw.attribute_bytes)
          (u.c ∷ u.state) s₁ later others (omega arith) fits p₁ a₁ in
      let counted : length (requests s₁) ≡ length (requests s) + 1 =
        ap length q₁ ∙ length-append (requests s) _ in
      (s₂, rw (fetched, u.goes, stuck), omega (arith, q₂, counted))
  fetch_from-IsUnfinished f pdus t acc state s later u size short idle queued = absurd (omega arith)

  -- The number of pages is not bounded: a peer that answers `fuel + 1` requests with pages that
  -- all say that there is another keeps the query going for `fuel` rounds of its loop, whatever
  -- `fuel` is, and gets a request for each page.
  pub find_rfcomm_channel-endless :
      (fuel : ℕ) (pdus : List (List ℕ)) (s : S) (later : List (List ℕ))
      → All IsUnfinished pdus
      → length pdus ≡ suc fuel
      → pending s ≡ []
      → answers s ≡ pdus ++ later
      → (s' : S) × (find_rfcomm_channel n b stream service_uuid16 fuel s ≡ (out_of_fuel, s'))
        × (length (requests s') ≡ length (requests s) + suc fuel)
  unfolding find_rfcomm_channel
  find_rfcomm_channel-endless fuel pdus s later unfinished size idle queued =
      let (s', stuck, q) =
        fetch_from-IsUnfinished fuel pdus 0 [] [] s later unfinished size (omega arith) idle
          queued in
      let answer : List ℕ → Io S QueryError (Option ℕ) = λ attribute_bytes.
        lift (map_err (λ _. decode) (decode_attribute_lists n attribute_bytes)) >>= λ (_, lists).
        lift (ok (find_map rfcomm_channel lists)) in
      let joined = sym (>>=_assoc (fetch_page n b stream service_uuid16 0 []) _ answer s) in
      (s', joined ∙ rw stuck, q)
