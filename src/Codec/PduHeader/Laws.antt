-- ===== src/Codec/PduHeader/Laws.antt =====
-- What `pdu_header` reads.
use bluesdp.Prelude.{
  ℕ, ◌+◌, ◌*◌, ◌<◌, ◌≡◌, refl, List, [], ◌∷◌, ◌++◌, arith, ok, err, length, be_bytes_16, IsU16,
  be_value_8, be_value_16, ◌%◌, ◌/◌,
}
use bluesdp.Nom.{Nom, IsLawful}
use bluesdp.Nom.Split.{read_uint-append, read_uint_short}
use bluesdp.Codec.PduHeader.{PduHeader, pdu_header}

module _ {E B : Type 0} (n : Nom E B) (lawful : IsLawful n) where
  open lawful use {be_u8_lem, be_u16_lem}

  -- Five bytes are a header, whatever they are.
  pub pdu_header-cons :
      (p t₁ t₂ l₁ l₂ : ℕ) (rest : List ℕ)
      → pdu_header n (p ∷ t₁ ∷ t₂ ∷ l₁ ∷ l₂ ∷ rest)
        ≡ ok (
          rest,
          record { pdu_id = p; transaction_id = t₁ * 256 + t₂; parameter_length = l₁ * 256 + l₂ },
        )
  unfolding pdu_header
  pdu_header-cons p t₁ t₂ l₁ l₂ rest = rw (
    be_u8_lem,
    read_uint-append n.eof 1 (p ∷ []) (t₁ ∷ t₂ ∷ l₁ ∷ l₂ ∷ rest) refl,
    be_u16_lem,
    read_uint-append n.eof 2 (t₁ ∷ t₂ ∷ []) (l₁ ∷ l₂ ∷ rest) refl,
    be_u16_lem,
    read_uint-append n.eof 2 (l₁ ∷ l₂ ∷ []) rest refl,
    be_value_8 p,
    be_value_16 t₁ t₂,
    be_value_16 l₁ l₂,
  )

  cut :
      (p t₁ t₂ : ℕ) (rest : List ℕ)
      → length rest < 2
      → pdu_header n (p ∷ t₁ ∷ t₂ ∷ rest) ≡ err (n.eof rest)
  unfolding pdu_header
  cut p t₁ t₂ rest h = rw (
    be_u8_lem,
    read_uint-append n.eof 1 (p ∷ []) (t₁ ∷ t₂ ∷ rest) refl,
    be_u16_lem,
    read_uint-append n.eof 2 (t₁ ∷ t₂ ∷ []) rest refl,
    be_u16_lem,
    read_uint_short n.eof 2 rest h,
  )

  -- Fewer are none.
  pub pdu_header_short :
      (input : List ℕ) → length input < 5 → (e : E) × (pdu_header n input ≡ err e)
  unfolding pdu_header
  pdu_header_short [] h = (n.eof [], rw (be_u8_lem, read_uint_short n.eof 1 [] (omega arith)))
  pdu_header_short (p ∷ []) h = (
    n.eof [],
    rw (
      be_u8_lem,
      read_uint-append n.eof 1 (p ∷ []) [] refl,
      be_u16_lem,
      read_uint_short n.eof 2 [] (omega arith),
    ),
  )
  pdu_header_short (p ∷ t₁ ∷ []) h = (
    n.eof (t₁ ∷ []),
    rw (
      be_u8_lem,
      read_uint-append n.eof 1 (p ∷ []) (t₁ ∷ []) refl,
      be_u16_lem,
      read_uint_short n.eof 2 (t₁ ∷ []) (omega arith),
    ),
  )
  pdu_header_short (p ∷ t₁ ∷ t₂ ∷ rest) h = (n.eof rest, cut p t₁ t₂ rest (omega arith))

  pub pdu_header-be_bytes :
      (p t l : ℕ) (rest : List ℕ)
      → IsU16 t
      → IsU16 l
      → pdu_header n (p ∷ (be_bytes_16 t ++ (be_bytes_16 l ++ rest)))
        ≡ ok (rest, record { pdu_id = p; transaction_id = t; parameter_length = l })
  pdu_header-be_bytes p t l rest ht hl =
      let value_t : t / 256 % 256 * 256 + t % 256 ≡ t = omega arith in
      let value_l : l / 256 % 256 * 256 + l % 256 ≡ l = omega arith in
      rw (pdu_header-cons p _ _ _ _ rest, value_t, value_l)

  -- The five bytes in front of `rest` that are the header `h`.
  pub record IsHeader (input rest : List ℕ) (h : PduHeader) : Type 0 where
    pub t₁ : ℕ
    pub t₂ : ℕ
    pub l₁ : ℕ
    pub l₂ : ℕ
    pub whole : input ≡ h.pdu_id ∷ t₁ ∷ t₂ ∷ l₁ ∷ l₂ ∷ rest
    pub transaction : h.transaction_id ≡ t₁ * 256 + t₂
    pub parameter : h.parameter_length ≡ l₁ * 256 + l₂

  pub pdu_header-eq-ok :
      (input rest : List ℕ) (h : PduHeader)
      → pdu_header n input ≡ ok (rest, h)
      → IsHeader input rest h
  pdu_header-eq-ok (p ∷ t₁ ∷ t₂ ∷ l₁ ∷ l₂ ∷ rest') rest h e =
      let read = pdu_header-cons p t₁ t₂ l₁ l₂ rest' in
      record {
        t₁ = t₁;
        t₂ = t₂;
        l₁ = l₁;
        l₂ = l₂;
        whole = cc read;
        transaction = cc read;
        parameter = cc read;
      }
  pdu_header-eq-ok input rest h e = let (reason, cut) = pdu_header_short input (omega arith) in cc
