-- ===== src/Transport/Socket/Pdu.antt =====
-- What `send_and_receive_pdu` returns.
use bluesdp.Prelude.{
  ℕ, ◌+◌, ◌*◌, ◌≡◌, refl, ap, List, [], ◌∷◌, ◌++◌, arith, ok, err, out_of_fuel, length, All,
  All-append, IsByte, ok-injective,
}
use bluesdp.Io.{>>=-eq-ok, Stream, IsExact, Timed}
use bluesdp.Transport.Socket.{
  settle, param_len, write, read, response_timeout, pdu_header_len, send_and_receive_pdu,
}

-- Five bytes of header, and as many more as the last two of them say.
pub record IsPdu (pdu : List ℕ) : Type 0 where
  pub p : ℕ
  pub t₁ : ℕ
  pub t₂ : ℕ
  pub l₁ : ℕ
  pub l₂ : ℕ
  pub body : List ℕ
  pub whole : pdu ≡ p ∷ t₁ ∷ t₂ ∷ l₁ ∷ l₂ ∷ body
  pub size : length body ≡ l₁ * 256 + l₂

settle-eq-ok :
    {X A : Type 0} (outcome : Timed X A) (a : A) → settle outcome ≡ ok a → outcome ≡ ok (ok a)
settle-eq-ok (ok (ok x)) a h = ap (λ t. ok (ok t)) (ok-injective h)
settle-eq-ok (ok (err e)) a h = cc
settle-eq-ok (ok out_of_fuel) a h = cc
settle-eq-ok (err e) a h = cc
settle-eq-ok out_of_fuel a h = cc

-- A header of five bytes in front of the body that it announces is a PDU.
append-IsPdu :
    (header body : List ℕ)
    → length header ≡ 5
    → length body ≡ param_len header
    → IsPdu (header ++ body)
unfolding param_len
append-IsPdu (p ∷ t₁ ∷ t₂ ∷ l₁ ∷ l₂ ∷ []) body h size = record {
  p = p;
  t₁ = t₁;
  t₂ = t₂;
  l₁ = l₁;
  l₂ = l₂;
  body = body;
  whole = refl;
  size = size;
}
append-IsPdu _ body h size = absurd (omega arith)

module _ {S X : Type 0} (stream : Stream S X) (exact : IsExact stream) where
  pub read_fills :
      (k : ℕ) (s : S) (bytes : List ℕ)
      → (read stream k s).0 ≡ ok bytes
      → (length bytes ≡ k) × All IsByte bytes
  read_fills k s bytes h =
      let r = stream.read_exact response_timeout k s in
      exact.fills response_timeout k s r.1 bytes (ap (λ t. (t, r.1)) (settle-eq-ok r.0 bytes h))

  -- Whatever the peer sends, a successful exchange returns one whole PDU of bytes.
  pub send_and_receive_pdu-IsPdu :
      (request : List ℕ) (s s' : S) (pdu : List ℕ)
      → send_and_receive_pdu stream request s ≡ (ok pdu, s')
      → IsPdu pdu × All IsByte pdu
  unfolding send_and_receive_pdu
  send_and_receive_pdu-IsPdu request s s' pdu e =
      let (_, written, e₁) = >>=-eq-ok (write stream request) _ s s' e in
      let s₁ = (write stream request s).1 in
      let (header, first, e₂) = >>=-eq-ok (read stream pdu_header_len) _ s₁ s' e₁ in
      let s₂ = (read stream pdu_header_len s₁).1 in
      let (body, second, e₃) = >>=-eq-ok (read stream (param_len header)) _ s₂ s' e₂ in
      let (five, header_bytes) = read_fills pdu_header_len s₁ header first in
      let (size, body_bytes) = read_fills (param_len header) s₂ body second in
      let same : header ++ body ≡ pdu = ok-injective (ap (λ p. p.0) e₃) in
      rw (← same)
        (append-IsPdu header body five size, All-append IsByte header body header_bytes body_bytes)

-- A write and two reads that all succeed.
pub send_and_receive_pdu_steps :
    {S X : Type 0} (stream : Stream S X) (request header body : List ℕ) (s s₁ s₂ s₃ : S)
    → stream.write_all response_timeout request s ≡ (ok (ok tt), s₁)
    → stream.read_exact response_timeout 5 s₁ ≡ (ok (ok header), s₂)
    → stream.read_exact response_timeout (param_len header) s₂ ≡ (ok (ok body), s₃)
    → send_and_receive_pdu stream request s ≡ (ok (header ++ body), s₃)
unfolding send_and_receive_pdu
send_and_receive_pdu_steps stream request header body s s₁ s₂ s₃ wrote got rest =
    rw (wrote, got, rest)
