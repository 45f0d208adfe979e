-- ===== src/Transport/Session/Failures.antt =====
-- What has happened when a query fails.
use bluesdp.Prelude
use bluesdp.Prelude.{
  ℕ, ◌≤◌, ◌≡◌, ◌≢◌, ◌⊎◌, inl, inr, refl, ap, sym, ◌∙◌, List, [], ◌∷◌, ◌++◌, arith, Option, Result,
  ok, err, out_of_fuel, length, map_err, map_err-eq-ok, map_err-eq-err, err-injective,
}
use bluesdp.Nom.{Nom, IsLawful}
use bluesdp.Buf.{Buf, IsAppending}
use bluesdp.Io.{lift, >>=-eq-err, Stream, IsExact}
use bluesdp.Codec.Element.{DataElement}
use bluesdp.Codec.Element.Grammar.{Encodes}
use bluesdp.Codec.Encode.Layout.{pdu_bytes, encode_short}
use bluesdp.Codec.Response.{
  AttributeList, RawServiceSearchAttributeResponse, raw_response, decode_attribute_lists,
}
use bluesdp.Codec.Response.Framing.{IsFrame, raw_response-eq-ok_iff}
use bluesdp.Codec.Response.Records.{IsResponse, decode_attribute_lists-eq-ok_iff}
use bluesdp.Transport.Socket.{SocketError, send_and_receive_pdu}
use bluesdp.Transport.Socket.Errors.{ExchangeFails, send_and_receive_pdu-eq-err}
use bluesdp.Transport.Session.{
  QueryError, socket, decode, request_for, next_transaction, query_once, fetch_page,
  find_rfcomm_channel,
}
use bluesdp.Transport.Session.Query.{channel_of}
use bluesdp.Transport.Session.Steps.{Loop, Reach, Ends, no_page, stuck, answered, fails}
use bluesdp.Transport.Session.Steps.Decides.{find_rfcomm_channel-Ends}
use bluesdp.Transport.Session.Steps.Invariant.{Reach-Inv}

-- Only the decoder's own error is an error of what follows it.
map_err-decode-eq-err :
    {D R A : Type 0} (r : Result D R) (f : R → A) (q : QueryError)
    → Prelude.◌>>=◌ (map_err (λ _. decode) r) (λ v. ok (f v)) ≡ err q
    → ((v : R) → r ≢ ok v) × (q ≡ decode)
map_err-decode-eq-err (ok v) f q h = cc
map_err-decode-eq-err (err d) f q h = ((λ v p. cc), sym (err-injective h))
map_err-decode-eq-err out_of_fuel f q h = cc

module _ {E B F S X : Type 0} (n : Nom E B) (b : Buf F) (stream : Stream S X) (service_uuid16 : ℕ)
    (s : S) where
  abbrev request_bytes : ℕ → List ℕ → List ℕ
  request_bytes t state = pdu_bytes (request_for t service_uuid16 state)

  -- A query that starts in `s` comes to ask for a page, with this transaction ID and continuation
  -- state, when the state outside is `o`.
  pub data Asks : ℕ → List ℕ → S → Type 0 where
    first_page : Asks 0 [] s
    next_page :
        (k : ℕ) (l : Loop S) (c : ℕ) (state : List ℕ)
        → Reach n b stream service_uuid16 s k l
        → l.continuation_state ≡ c ∷ state
        → Asks (next_transaction l.transaction_id) (c ∷ state) l.outside

  -- A request that it comes to send is not answered: the first wait of the exchange that fails has
  -- this error.
  pub data Unanswered (e : SocketError) : Type 0 where
    unanswered :
        (t : ℕ) (state : List ℕ) (o : S)
        → Asks t state o
        → ExchangeFails stream (request_bytes t state) o e
        → Unanswered e

  -- An answer is not laid out as a page, or all pages are there and no bytes at the front of their
  -- attribute bytes encode a response.
  pub data Malformed : Type 0 where
    no_frame :
        (t : ℕ) (state : List ℕ) (o : S) (pdu : List ℕ)
        → Asks t state o
        → (send_and_receive_pdu stream (request_bytes t state) o).0 ≡ ok pdu
        → ((rest : List ℕ) (raw : RawServiceSearchAttributeResponse) → ¬ IsFrame pdu rest raw)
        → Malformed
    no_response :
        (k : ℕ) (l : Loop S)
        → Reach n b stream service_uuid16 s k l
        → l.continuation_state ≡ []
        → ((front rest : List ℕ) (outer : DataElement) (lists : List AttributeList)
            → l.attribute_bytes ≡ front ++ rest
            → Encodes front outer
            → ¬ IsResponse outer lists)
        → Malformed

  -- The error of a query, by what has happened.
  pub data Failure : QueryError → Type 0 where
    exchanging : {e : SocketError} → Unanswered e → Failure (socket e)
    decoding : Malformed → Failure decode

  module _ (lawful : IsLawful n) (appending : IsAppending b) (exact : IsExact stream) where
    query_once_lem :
        (t : ℕ) (state : List ℕ) (o : S)
        → length state ≤ 255
        → (query_once b stream service_uuid16 t state o).0
          ≡ map_err socket (send_and_receive_pdu stream (request_bytes t state) o).0
    unfolding query_once
    query_once_lem t state o short =
        rw (encode_short b appending (request_for t service_uuid16 state) short)

    -- A page that is not fetched.
    page-Failure :
        (t : ℕ) (state : List ℕ) (o : S) (q : QueryError)
        → Asks t state o
        → length state ≤ 255
        → (fetch_page n b stream service_uuid16 t state o).0 ≡ err q
        → Failure q
    unfolding fetch_page
    page-Failure t state o q asked short h =
        let request = request_bytes t state in
        let answer = (send_and_receive_pdu stream request o).0 in
        let once = query_once_lem t state o short in
        elim (>>=-eq-err (query_once b stream service_uuid16 t state) _ o h) [
          | inl failed ↦
              let (e, sent, same) = map_err-eq-err socket answer (sym once ∙ failed) in
              let stops = send_and_receive_pdu-eq-err stream request o e sent in
              rw (← same) (exchanging (unanswered t state o asked stops))
          | inr (bytes, got, h₁) ↦
              let came = map_err-eq-ok socket answer (sym once ∙ got) in
              elim (>>=-eq-err (lift (map_err (λ _. decode) (raw_response n bytes))) _ _ h₁) [
                | inl failed ↦
                    let (d, refused, same) =
                      map_err-eq-err (λ _. decode) (raw_response n bytes) failed in
                    rw (← same) (
                      decoding (
                        no_frame t state o bytes asked came λ rest raw frame.
                          let read = (raw_response-eq-ok_iff n lawful bytes rest raw).1 frame in
                          cc))
                | inr (p, _, h₂) ↦ cc
              ]
        ]

    -- Attribute bytes that are not decoded.
    channel-Failure :
        (k : ℕ) (l : Loop S) (q : QueryError)
        → Reach n b stream service_uuid16 s k l
        → l.continuation_state ≡ []
        → ◌≡◌ {A = Result QueryError (Option ℕ)} (channel_of n l.attribute_bytes) (err q)
        → Failure q
    channel-Failure k l q reach done h =
        let (refused, same) =
          map_err-decode-eq-err (decode_attribute_lists n l.attribute_bytes) _ q h in
        rw same (
          decoding (
            no_response k l reach done λ front rest outer lists whole enc shaped.
              refused (rest, lists)
                ((decode_attribute_lists-eq-ok_iff n lawful l.attribute_bytes rest lists).1
                  (outer, front, whole, enc, shaped))))

    ends_Failure :
        (s' : S) (q : QueryError) → Ends n b stream service_uuid16 s (err q) s' → Failure q
    ends_Failure s' q (no_page e unfetched same) =
        page-Failure 0 [] s q first_page (omega arith)
          (ap (λ p. p.0) unfetched ∙ ap err (sym (err-injective same)))
    ends_Failure s' q (stuck k l e reach (fails c state goes unfetched) same) =
        let inv = Reach-Inv n lawful b stream exact service_uuid16 s reach in
        let short : length (c ∷ state) ≤ 255 = omega (arith, ap length goes, inv.state_short) in
        page-Failure (next_transaction l.transaction_id) (c ∷ state) l.outside q
          (next_page k l c state reach goes) short
          (ap (λ p. p.0) unfetched ∙ ap err (sym (err-injective same)))
    ends_Failure s' q (answered k l reach done same at_end) =
        channel-Failure k l q reach done (sym same)

    -- Over a stream of bytes, an error of the query is that of the first thing that goes wrong.
    pub find_rfcomm_channel-Failure :
        (fuel : ℕ) (q : QueryError)
        → (find_rfcomm_channel n b stream service_uuid16 fuel s).0 ≡ err q
        → Failure q
    find_rfcomm_channel-Failure fuel q h =
        let s' = (find_rfcomm_channel n b stream service_uuid16 fuel s).1 in
        ends_Failure s' q (
          (find_rfcomm_channel-Ends n b stream service_uuid16 lawful s (err q) s').0
            (fuel, ap (λ r. (r, s')) h, λ p. cc))
