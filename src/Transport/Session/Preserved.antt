-- ===== src/Transport/Session/Preserved.antt =====
-- What a query does outside the program, as what it preserves there.
use bluesdp.Prelude.{
  ℕ, zero, suc, ◌≤◌, ◌≡◌, List, [], ◌∷◌, ◌++◌, arith, Result, ok, err, out_of_fuel, map_err, length,
  IsU16, All, IsByte, refl,
}
use bluesdp.Nom.{Nom, IsLawful}
use bluesdp.Buf.{Buf, IsAppending}
use bluesdp.Io.{Io, ◌>>=◌, continue, lift, Stream, IsExact}
use bluesdp.Codec.Encode.Layout.{pdu_bytes, encode_short}
use bluesdp.Codec.Response.{raw_response, decode_attribute_lists}
use bluesdp.Transport.Socket.{
  response_timeout, pdu_header_len, param_len, write, read, send_and_receive_pdu,
}
use bluesdp.Transport.Socket.Pdu.{read_fills}
use bluesdp.Transport.Session.{
  decode, request_for, next_transaction, query_once, fetch_page, fetch_more, find_rfcomm_channel,
}
use bluesdp.Transport.Session.Received.{fetch_page-IsReceived}

module _ {S : Type 0} (P : S → Type 0) where
  continue-keeps :
      {E A C : Type 0} (r : Result E A) (f : A → Io S E C) (s : S)
      → P s
      → ((a : A) → r ≡ ok a → P (f a s).1)
      → P (continue r f s).1
  continue-keeps (ok a) f s p h = h a refl
  continue-keeps (err e) f s p h = p
  continue-keeps out_of_fuel f s p h = p

  -- A step, and what follows its result.
  then-keeps :
      {E A C : Type 0} (m : Io S E A) (f : A → Io S E C) (s : S)
      → P (m s).1
      → ((a : A) → (m s).0 ≡ ok a → P (f a (m s).1).1)
      → P ((m >>= f) s).1
  then-keeps m f s = continue-keeps (m s).0 f (m s).1

-- A property of what lies outside that the two operations of a stream preserve, when they are given
-- a request for the service, or the length of a header or of a body.
pub record IsKept {S X : Type 0} (stream : Stream S X) (service_uuid16 : ℕ) (P : S → Type 0)
    : Type 0 where
  pub writes :
      (t : ℕ) (state : List ℕ) (s : S)
      → IsU16 t
      → length state ≤ 255
      → P s
      → P (stream.write_all response_timeout (pdu_bytes (request_for t service_uuid16 state)) s).1
  pub reads : (k : ℕ) (s : S) → k ≤ 65535 → P s → P (stream.read_exact response_timeout k s).1

param_len-le : (header : List ℕ) → All IsByte header → param_len header ≤ 65535
unfolding param_len
param_len-le (p ∷ t₁ ∷ t₂ ∷ l₁ ∷ l₂ ∷ []) all = omega (arith, all.1.1.1.0, all.1.1.1.1.0)
param_len-le _ all = omega arith

module _ {E B F S X : Type 0} (n : Nom E B) (lawful : IsLawful n) (b : Buf F)
    (appending : IsAppending b) (stream : Stream S X) (exact : IsExact stream) (u : ℕ)
    (P : S → Type 0) (kept : IsKept stream u P) where
  exchange-keeps :
      (t : ℕ) (state : List ℕ) (s : S)
      → IsU16 t
      → length state ≤ 255
      → P s
      → P (send_and_receive_pdu stream (pdu_bytes (request_for t u state)) s).1
  unfolding send_and_receive_pdu
  exchange-keeps t state s small short p =
      let request = pdu_bytes (request_for t u state) in
      then-keeps P (write stream request) _ s (kept.writes t state s small short p) λ _ _.
        let s₁ = (write stream request s).1 in
        let p₁ = kept.writes t state s small short p in
        then-keeps P (read stream pdu_header_len) _ s₁ (kept.reads 5 s₁ (omega arith) p₁)
          λ header got.
            let s₂ = (read stream pdu_header_len s₁).1 in
            let p₂ = kept.reads 5 s₁ (omega arith) p₁ in
            let (_, bytes) = read_fills stream exact pdu_header_len s₁ header got in
            let p₃ = kept.reads (param_len header) s₂ (param_len-le header bytes) p₂ in
            then-keeps P (read stream (param_len header)) _ s₂ p₃ λ body _. p₃

  once-keeps :
      (t : ℕ) (state : List ℕ) (s : S)
      → IsU16 t
      → length state ≤ 255
      → P s
      → P (query_once b stream u t state s).1
  unfolding query_once
  once-keeps t state s small short p =
      rw (encode_short b appending (request_for t u state) short)
        (exchange-keeps t state s small short p)

  page-keeps :
      (t : ℕ) (state : List ℕ) (s : S)
      → IsU16 t
      → length state ≤ 255
      → P s
      → P (fetch_page n b stream u t state s).1
  unfolding fetch_page
  page-keeps t state s small short p =
      let p₁ = once-keeps t state s small short p in
      let s₁ = (query_once b stream u t state s).1 in
      then-keeps P (query_once b stream u t state) _ s p₁ λ bytes _.
        then-keeps P (lift (map_err (λ _. decode) (raw_response n bytes))) _ s₁ p₁ λ _ _. p₁

  more-keeps :
      (fuel t : ℕ) (acc state : List ℕ) (s : S)
      → length state ≤ 255
      → P s
      → P (fetch_more n b stream u fuel t acc state s).1
  unfolding fetch_more
  more-keeps fuel t acc [] s short p = p
  more-keeps zero t acc (c ∷ state) s short p = p
  more-keeps (suc fuel) t acc (c ∷ state) s short p =
      let t' = next_transaction t in
      let p₁ = page-keeps t' (c ∷ state) s (omega arith) short p in
      then-keeps P (fetch_page n b stream u t' (c ∷ state)) _ s p₁ λ raw got.
        more-keeps fuel t' (acc ++ raw.attribute_bytes) raw.continuation_state _
          (fetch_page-IsReceived n lawful b stream exact u t' (c ∷ state) s raw got).state_short p₁

  -- Over a stream of bytes, whatever the peer sends and however the query ends: it does nothing
  -- outside but write whole requests for the service, each with a continuation state of at most
  -- 255 bytes, and read at most 65535 bytes at a time, all with the timeout of 20 seconds. What
  -- these writes and reads preserve, it preserves.
  pub find_rfcomm_channel-keeps :
      (fuel : ℕ) (s : S) → P s → P (find_rfcomm_channel n b stream u fuel s).1
  unfolding find_rfcomm_channel
  find_rfcomm_channel-keeps fuel s p =
      let p₁ = page-keeps 0 [] s (omega arith) (omega arith) p in
      then-keeps P (fetch_page n b stream u 0 []) _ s p₁ λ raw got.
        let s₁ = (fetch_page n b stream u 0 [] s).1 in
        let state_short =
          (fetch_page-IsReceived n lawful b stream exact u 0 [] s raw got).state_short in
        let p₂ = more-keeps fuel 0 raw.attribute_bytes raw.continuation_state s₁ state_short p₁ in
        let more = fetch_more n b stream u fuel 0 raw.attribute_bytes raw.continuation_state in
        then-keeps P more _ s₁ p₂ λ bytes _.
          let decoded = map_err (λ _. decode) (decode_attribute_lists n bytes) in
          then-keeps P (lift decoded) _ (more s₁).1 p₂ λ _ _. p₂
