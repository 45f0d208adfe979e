-- ===== src/Codec/Element/Value.antt =====
-- `element_value`, the decoding of a payload, against the grammar.
use bluesdp.Prelude.{
  ℕ, ◌≡◌, ◌≢◌, List, [], ◌++◌, arith, ok, inl, inr, true, length, >>=-eq-ok, be_value, ◌<◌,
}
use native.Mathlib.Decide.{ℕ_discrete}
use bluesdp.Nom.{Nom, IsLawful, IResult}
use bluesdp.Nom.Split.{read_uint_exact}
use bluesdp.Codec.Descriptor.{resolve_size, size_eq, fixed}
use bluesdp.Codec.Element.{
  DataElement, Elements, unsigned_int, uuid16, sequence, unknown, uint_value, uuid16_value,
  element_value, uint_type, uuid_type, sequence_type,
}
use bluesdp.Codec.Element.Grammar.{
  IsUintWidth, IsHeader, Encodes, EncodesAll, uint, uuid, seq, other,
}
use bluesdp.Codec.Element.Open.{descriptor_of}

-- `Fixed(2)` is the size of size index 1 and of no other.
is_uuid16 : (t i : ℕ) → i < 8 → (size_eq (resolve_size t i) (fixed 2) ≡ true) → i ≡ 1
unfolding resolve_size
is_uuid16 t i h e = ground arith

module _ {E B : Type 0} (n : Nom E B) (lawful : IsLawful n) where
  open lawful use {be_u8_lem, be_u16_lem, be_u32_lem}

  pub uint_value-eq :
      (body : List ℕ) → IsUintWidth (length body) → uint_value n body ≡ ok ([], be_value body)
  unfolding uint_value
  uint_value-eq body (inl h) = rw (h, be_u8_lem) (read_uint_exact n.eof 1 body h)
  uint_value-eq body (inr (inl h)) = rw (h, be_u16_lem) (read_uint_exact n.eof 2 body h)
  uint_value-eq body (inr (inr h)) = rw (h, be_u32_lem) (read_uint_exact n.eof 4 body h)

  -- Any other width is refused.
  pub uint_value-eq-ok :
      (body : List ℕ) (p : List ℕ × ℕ)
      → uint_value n body ≡ ok p
      → IsUintWidth (length body) × (p.1 ≡ be_value body)
  unfolding uint_value
  uint_value-eq-ok body p e = ground (
    arith,
    be_u8_lem body,
    be_u16_lem body,
    be_u32_lem body,
    read_uint_exact n.eof 1 body,
    read_uint_exact n.eof 2 body,
    read_uint_exact n.eof 4 body,
  )

  module _ (contents : List ℕ → IResult E Elements) (body : List ℕ) where
    pub element_value-uint :
        (i : ℕ)
        → IsUintWidth (length body)
        → element_value n contents (descriptor_of uint_type i) body
          ≡ ok (unsigned_int (be_value body))
    unfolding element_value
    element_value-uint i h = rw (uint_value-eq body h)

    pub element_value-uuid :
        length body ≡ 2
        → element_value n contents (descriptor_of uuid_type 1) body ≡ ok (uuid16 (be_value body))
    unfolding element_value uuid16_value resolve_size
    element_value-uuid h = rw (h, be_u16_lem, read_uint_exact n.eof 2 body h)

    pub element_value-seq :
        (i : ℕ) (elements : Elements)
        → contents body ≡ ok ([], elements)
        → element_value n contents (descriptor_of sequence_type i) body ≡ ok (sequence elements)
    unfolding element_value
    element_value-seq i elements h = rw h

    pub element_value-other :
        (t i : ℕ)
        → i < 8
        → t ≢ uint_type
        → ¬ ((t ≡ uuid_type) × (i ≡ 1))
        → t ≢ sequence_type
        → element_value n contents (descriptor_of t i) body ≡ ok unknown
    unfolding element_value
    element_value-other t i small a b c = ground (arith, is_uuid16 t i small)

    module _ (header : List ℕ) {bytes : List ℕ} (whole : bytes ≡ header ++ body) where
      uint_case :
          (i : ℕ) (e : DataElement)
          → IsHeader uint_type i header (length body)
          → element_value n contents (descriptor_of uint_type i) body ≡ ok e
          → Encodes bytes e
      unfolding element_value
      uint_case i e h r =
          let (p, read, last) = >>=-eq-ok (uint_value n body) _ r in
          let (wide, value) = uint_value-eq-ok body p read in
          let same : e ≡ unsigned_int (be_value body) = cc in
          rw same (uint header body h wide whole)

      uuid_case :
          (e : DataElement)
          → IsHeader uuid_type 1 header (length body)
          → element_value n contents (descriptor_of uuid_type 1) body ≡ ok e
          → Encodes bytes e
      uuid_case e h r =
          let same : e ≡ uuid16 (be_value body) = cc (element_value-uuid h.payload_size) in
          rw same (uuid header body h whole)

      seq_case :
          (i : ℕ) (e : DataElement)
          → IsHeader sequence_type i header (length body)
          → ((rest : List ℕ) (elements : Elements)
              → contents body ≡ ok (rest, elements)
              → EncodesAll body elements)
          → element_value n contents (descriptor_of sequence_type i) body ≡ ok e
          → Encodes bytes e
      unfolding element_value
      seq_case i e h sound r =
          let ((rest, elements), read, last) = >>=-eq-ok (contents body) _ r in
          let same : e ≡ sequence elements = cc in
          rw same (seq header body h (sound rest elements read) whole)

      module _ (t i : ℕ) (e : DataElement) (h : IsHeader t i header (length body))
          (sound : (rest : List ℕ) (elements : Elements)
            → contents body ≡ ok (rest, elements)
            → EncodesAll body elements)
          (r : element_value n contents (descriptor_of t i) body ≡ ok e) where
        not_uuid_case : t ≢ uint_type → ¬ ((t ≡ uuid_type) × (i ≡ 1)) → Encodes bytes e
        not_uuid_case a b = elim (ℕ_discrete t sequence_type) [
          | yes p ↦ seq_case i e (rw p at h) sound (rw p at r)
          | no c ↦
              let small : i < 8 = omega (arith, h.low) in
              let same : e ≡ unknown = cc (element_value-other t i small a b c) in
              rw same (other header body h a b c whole)
        ]

        not_uint_case : t ≢ uint_type → Encodes bytes e
        not_uint_case a = elim (ℕ_discrete t uuid_type) [
          | no b ↦ not_uuid_case a (λ both. b both.0)
          | yes p ↦ elim (ℕ_discrete i 1) [
            | no b ↦ not_uuid_case a (λ both. b both.1)
            | yes q ↦ uuid_case e (rw (p, q) at h) (rw (p, q) at r)
          ]
        ]

        -- A payload is decoded only to an element that the grammar gives to its bytes.
        pub element_value-Encodes : Encodes bytes e
        element_value-Encodes = elim (ℕ_discrete t uint_type) [
          | yes p ↦ uint_case i e (rw p at h) (rw p at r)
          | no a ↦ not_uint_case a
        ]
