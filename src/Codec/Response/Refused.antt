-- ===== src/Codec/Response/Refused.antt =====
-- Responses that are refused.
use bluesdp.Prelude.{
  ℕ, ◌+◌, ◌*◌, ◌≡◌, ◌<◌, refl, List, [], ◌∷◌, arith, ok, err, Bool-cases, inl, inr, be_value_16,
  ==_iff, ◌==◌,
}
use bluesdp.Nom.{Nom, IsLawful}
use bluesdp.Nom.Split.{split_short, split-append, read_uint-append, read_uint_short}
use bluesdp.Codec.PduHeader.Laws.{pdu_header-cons}
use bluesdp.Codec.Element.Wide.{Wide, data_element-Wide}
use bluesdp.Codec.Response.{raw_response, decode_attribute_lists}

module _ {E B : Type 0} (n : Nom E B) (lawful : IsLawful n) where
  open lawful use {be_u8_lem, be_u16_lem, take_lem}

  no_state : (size : ℕ) → size ≡ 0 → n.take size [] ≡ ok ([], [])
  no_state size h = rw (h, take_lem) (split-append n.eof 0 [] [] refl)

  -- A PDU with two bytes of parameters, as an ErrorResponse has with its error code, is never taken
  -- as a page: framing it fails.
  pub raw_response-error_response :
      (p t₁ t₂ l₁ l₂ code₁ code₂ : ℕ)
      → (e : E) × (raw_response n (p ∷ t₁ ∷ t₂ ∷ l₁ ∷ l₂ ∷ code₁ ∷ code₂ ∷ []) ≡ err e)
  unfolding raw_response
  raw_response-error_response p t₁ t₂ l₁ l₂ code₁ code₂ =
      let code = code₁ * 256 + code₂ in
      elim (Bool-cases (code == 0)) [
        | inl zero_code ↦ (
          n.eof [],
          rw (
            pdu_header-cons n lawful p t₁ t₂ l₁ l₂ (code₁ ∷ code₂ ∷ []),
            be_u16_lem,
            read_uint-append n.eof 2 (code₁ ∷ code₂ ∷ []) [] refl,
            be_value_16 code₁ code₂,
            no_state code ((==_iff code 0).0 zero_code),
            be_u8_lem,
            read_uint_short n.eof 1 [] (omega arith),
          ),
        )
        | inr code_given ↦
            let short : 0 < code = ground arith in
            (
              n.eof [],
              rw (
                pdu_header-cons n lawful p t₁ t₂ l₁ l₂ (code₁ ∷ code₂ ∷ []),
                be_u16_lem,
                read_uint-append n.eof 2 (code₁ ∷ code₂ ∷ []) [] refl,
                be_value_16 code₁ code₂,
                take_lem,
                split_short n.eof code [] short,
              ),
            )
      ]

  -- One unsigned integer whose width is none of 1, 2 and 4 bytes makes a whole response fail:
  -- attribute bytes with such an integer at their front, or at any depth in the sequence at their
  -- front behind elements of the grammar, are not decoded.
  pub decode_attribute_lists-Wide :
      (bytes : List ℕ) → Wide bytes → (e : E) × (decode_attribute_lists n bytes ≡ err e)
  unfolding decode_attribute_lists
  decode_attribute_lists-Wide bytes w =
      let (e, refused) = data_element-Wide n lawful bytes w in (e, rw refused)
