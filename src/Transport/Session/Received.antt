-- ===== src/Transport/Session/Received.antt =====
-- What a page that is fetched over a stream of bytes holds.
use bluesdp.Prelude.{
  ℕ, ◌≤◌, ◌≡◌, ap, List, ◌∷◌, ◌++◌, arith, ok, length, map_err, map_err-eq-ok, ok-injective, All,
  IsByte, All-left, All-right,
}
use bluesdp.Nom.{Nom, IsLawful}
use bluesdp.Buf.{Buf}
use bluesdp.Io.{>>=-eq-ok, lift, Stream, IsExact}
use bluesdp.Codec.Encode
use bluesdp.Codec.Response.{RawServiceSearchAttributeResponse, raw_response}
use bluesdp.Codec.Response.Framing.{IsFrame, raw_response-eq-ok_iff}
use bluesdp.Transport.Socket.{send_and_receive_pdu}
use bluesdp.Transport.Socket.Pdu.{send_and_receive_pdu-IsPdu}
use bluesdp.Transport.Session.{encode, socket, decode, request_for, query_once, fetch_page}

-- Bytes, as many as the length fields of a page can say.
pub record IsReceived (raw : RawServiceSearchAttributeResponse) : Type 0 where
  pub attributes_bytes : All IsByte raw.attribute_bytes
  pub attributes_short : length raw.attribute_bytes ≤ 65535
  pub state_bytes : All IsByte raw.continuation_state
  pub state_short : length raw.continuation_state ≤ 255

frame-IsReceived :
    (input rest : List ℕ) (raw : RawServiceSearchAttributeResponse)
    → IsFrame input rest raw
    → All IsByte input
    → IsReceived raw
frame-IsReceived input rest raw f bytes =
    let state = raw.continuation_state in
    let fields = f.a₁ ∷ f.a₂ ∷ (raw.attribute_bytes ++ (length state ∷ (state ++ rest))) in
    let all : All IsByte (raw.header.pdu_id ∷ f.t₁ ∷ f.t₂ ∷ f.l₁ ∷ f.l₂ ∷ fields) =
      rw f.whole at bytes in
    let payload = all.1.1.1.1.1.1.1 in
    let tail = All-right IsByte raw.attribute_bytes (length state ∷ (state ++ rest)) payload in
    record {
      attributes_bytes =
          All-left IsByte raw.attribute_bytes (length state ∷ (state ++ rest)) payload;
      attributes_short = omega (arith, f.attribute_size, all.1.1.1.1.1.0, all.1.1.1.1.1.1.0);
      state_bytes = All-left IsByte state rest tail.1;
      state_short = omega (arith, tail.0);
    }

module _ {E B F S X : Type 0} (n : Nom E B) (lawful : IsLawful n) (b : Buf F) (stream : Stream S X)
    (exact : IsExact stream) (service_uuid16 : ℕ) where
  received :
      (t : ℕ) (state : List ℕ) (s : S) (pdu : List ℕ)
      → (query_once b stream service_uuid16 t state s).0 ≡ ok pdu
      → All IsByte pdu
  unfolding query_once
  received t state s pdu h =
      let (request, encoded, e) =
        >>=-eq-ok (lift (map_err encode (Encode.encode b (request_for t service_uuid16 state)))) _ s
          _ (ap (λ r. (r, (query_once b stream service_uuid16 t state s).1)) h) in
      let r = send_and_receive_pdu stream request s in
      let sent : r.0 ≡ ok pdu = map_err-eq-ok socket r.0 (ap (λ p. p.0) e) in
      (send_and_receive_pdu-IsPdu stream exact request s r.1 pdu (ap (λ q. (q, r.1)) sent)).1

  pub fetch_page-IsReceived :
      (t : ℕ) (state : List ℕ) (s : S) (raw : RawServiceSearchAttributeResponse)
      → (fetch_page n b stream service_uuid16 t state s).0 ≡ ok raw
      → IsReceived raw
  unfolding fetch_page
  fetch_page-IsReceived t state s raw h =
      let s₂ = (fetch_page n b stream service_uuid16 t state s).1 in
      let (bytes, got, e₁) =
        >>=-eq-ok (query_once b stream service_uuid16 t state) _ s s₂ (ap (λ r. (r, s₂)) h) in
      let s₁ = (query_once b stream service_uuid16 t state s).1 in
      let ((rest, raw'), framed, e₂) =
        >>=-eq-ok (lift (map_err (λ _. decode) (raw_response n bytes))) _ s₁ s₂ e₁ in
      let same : raw' ≡ raw = ok-injective (ap (λ p. p.0) e₂) in
      let read = map_err-eq-ok (λ _. decode) (raw_response n bytes) framed in
      let frame = (raw_response-eq-ok_iff n lawful bytes rest raw').0 read in
      rw same at (frame-IsReceived bytes rest raw' frame (received t state s bytes got))
