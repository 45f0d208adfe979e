-- ===== src/Codec/Response/Framing.antt =====
-- `raw_response` against the layout of a response PDU.
use bluesdp.Prelude.{
  ℕ, ◌+◌, ◌*◌, ◌≡◌, ◌↔◌, refl, ◌∙◌, List, [], ◌∷◌, ◌++◌, ok, length, >>=-eq-ok, subst, ok-injective,
  be_value_8, be_value_16,
}
use bluesdp.Nom.{Nom, IsLawful}
use bluesdp.Nom.Split.{read_uint-append, read_u8-eq-ok, read_u16-eq-ok, split-append, split-eq-ok}
use bluesdp.Codec.PduHeader.{PduHeader, pdu_header}
use bluesdp.Codec.PduHeader.Laws.{pdu_header-cons, pdu_header-eq-ok}
use bluesdp.Codec.Response.{RawServiceSearchAttributeResponse, raw_response}

-- `input` is a response PDU with the parts of `raw`, in front of `rest`: a header, the size of the
-- attribute bytes, these, and the continuation state behind its size. Of the header only the
-- place counts.
pub record IsFrame (input rest : List ℕ) (raw : RawServiceSearchAttributeResponse) : Type 0 where
  pub t₁ : ℕ
  pub t₂ : ℕ
  pub l₁ : ℕ
  pub l₂ : ℕ
  pub a₁ : ℕ
  pub a₂ : ℕ
  pub transaction : raw.header.transaction_id ≡ t₁ * 256 + t₂
  pub parameter : raw.header.parameter_length ≡ l₁ * 256 + l₂
  pub attribute_size : length raw.attribute_bytes ≡ a₁ * 256 + a₂
  pub whole :
      input
      ≡ raw.header.pdu_id
        ∷ t₁
        ∷ t₂
        ∷ l₁
        ∷ l₂
        ∷ a₁
        ∷ a₂
        ∷ (raw.attribute_bytes
            ++ (length raw.continuation_state ∷ (raw.continuation_state ++ rest)))

module _ {E B : Type 0} (n : Nom E B) (lawful : IsLawful n) where
  open lawful use {be_u8_lem, be_u16_lem, take_lem}

  raw_response-IsFrame :
      (input rest : List ℕ) (raw : RawServiceSearchAttributeResponse)
      → IsFrame input rest raw
      → raw_response n input ≡ ok (rest, raw)
  unfolding raw_response
  raw_response-IsFrame input rest raw f =
      let state = raw.continuation_state in
      let tail = length state ∷ (state ++ rest) in
      rw (
        f.whole,
        pdu_header-cons n lawful raw.header.pdu_id f.t₁ f.t₂ f.l₁ f.l₂
            (f.a₁ ∷ f.a₂ ∷ (raw.attribute_bytes ++ tail)),
        be_u16_lem,
        read_uint-append n.eof 2 (f.a₁ ∷ f.a₂ ∷ []) (raw.attribute_bytes ++ tail) refl,
        be_value_16 f.a₁ f.a₂,
        take_lem,
        split-append n.eof (f.a₁ * 256 + f.a₂) raw.attribute_bytes tail f.attribute_size,
        be_u8_lem,
        read_uint-append n.eof 1 (length state ∷ []) (state ++ rest) refl,
        be_value_8 (length state),
        take_lem,
        split-append n.eof (length state) state rest refl,
        ← f.transaction,
        ← f.parameter,
      )

  -- The pieces that the five steps of `raw_response` took.
  pieces-IsFrame :
      (input after_header after_len after_bytes after_state rest attrs state : List ℕ)
      (header : PduHeader) (attrs_len state_len : ℕ)
      → pdu_header n input ≡ ok (after_header, header)
      → n.be_u16 after_header ≡ ok (after_len, attrs_len)
      → n.take attrs_len after_len ≡ ok (after_bytes, attrs)
      → n.be_u8 after_bytes ≡ ok (after_state, state_len)
      → n.take state_len after_state ≡ ok (rest, state)
      → IsFrame input rest
          (record { header = header; attribute_bytes = attrs; continuation_state = state })
  pieces-IsFrame input r₁ r₂ r₃ r₄ rest attrs state header k m p₁ p₂ p₃ p₄ p₅ =
      let h = pdu_header-eq-ok n lawful input r₁ header p₁ in
      let (a₁, a₂, cut₂, size) = read_u16-eq-ok n.eof r₁ r₂ k (rw be_u16_lem at p₂) in
      let (cut₃, fits) = split-eq-ok n.eof k r₂ r₃ attrs (rw take_lem at p₃) in
      let cut₄ = read_u8-eq-ok n.eof r₃ r₄ m (rw be_u8_lem at p₄) in
      let (cut₅, state_fits) = split-eq-ok n.eof m r₄ rest state (rw take_lem at p₅) in
      record {
        t₁ = h.t₁;
        t₂ = h.t₂;
        l₁ = h.l₁;
        l₂ = h.l₂;
        a₁ = a₁;
        a₂ = a₂;
        transaction = h.transaction;
        parameter = h.parameter;
        attribute_size = fits ∙ size;
        whole = h.whole ∙ rw (cut₂, cut₃, cut₄, cut₅, state_fits);
      }

  IsFrame-raw_response :
      (input rest : List ℕ) (raw : RawServiceSearchAttributeResponse)
      → raw_response n input ≡ ok (rest, raw)
      → IsFrame input rest raw
  unfolding raw_response
  IsFrame-raw_response input rest raw e =
      let ((r₁, header), p₁, e₁) = >>=-eq-ok (pdu_header n input) _ e in
      let ((r₂, k), p₂, e₂) = >>=-eq-ok (n.be_u16 r₁) _ e₁ in
      let ((r₃, attrs), p₃, e₃) = >>=-eq-ok (n.take k r₂) _ e₂ in
      let ((r₄, m), p₄, e₄) = >>=-eq-ok (n.be_u8 r₃) _ e₃ in
      let ((r₅, state), p₅, e₅) = >>=-eq-ok (n.take m r₄) _ e₄ in
      let frame = pieces-IsFrame input r₁ r₂ r₃ r₄ r₅ attrs state header k m p₁ p₂ p₃ p₄ p₅ in
      subst (λ (p : List ℕ × RawServiceSearchAttributeResponse). IsFrame input p.0 p.1)
        (ok-injective e₅) frame

  -- `raw_response` succeeds exactly on the inputs that are laid out as a response PDU, and returns
  -- its parts and the bytes behind it; the values in the header do not matter.
  pub raw_response-eq-ok_iff :
      (input rest : List ℕ) (raw : RawServiceSearchAttributeResponse)
      → (raw_response n input ≡ ok (rest, raw)) ↔ IsFrame input rest raw
  raw_response-eq-ok_iff input rest raw =
      (IsFrame-raw_response input rest raw, raw_response-IsFrame input rest raw)
