-- ===== src/Codec/Encode/Readable.antt =====
-- A request, read back by the decoders of the crate.
use bluesdp.Prelude.{
  ℕ, ◌≤◌, ◌≡◌, refl, ap, ◌∙◌, sym, List, [], ◌∷◌, ◌++◌, arith, ok, length, be_bytes_16, be_bytes_32,
  be_value-be_bytes_16, be_value-be_bytes_32, IsU16, IsU32, inr, subst, be_value_8, append-nil, ◌/◌,
  ◌%◌,
}
use bluesdp.Nom.{Nom, IsLawful}
use bluesdp.Nom.Split.{read_uint-append}
use bluesdp.Buf.{Buf, IsAppending}
use bluesdp.Codec.PduHeader.{pdu_header}
use bluesdp.Codec.PduHeader.Laws.{pdu_header-be_bytes}
use bluesdp.Codec.Element.{
  DataElement, unsigned_int, uuid16, sequence, nil, cons, data_element, fuel_for,
}
use bluesdp.Codec.Element.Grammar.{
  length_bytes, width, IsHeader, Encodes, uint, uuid, seq, none, more,
}
use bluesdp.Codec.Element.Total.{data_element-eq-ok_iff}
use bluesdp.Codec.Encode.{ServiceSearchAttributeRequest, encode}
use bluesdp.Codec.Encode.Layout.{body_bytes, pdu_bytes, encode_short}

-- One byte of descriptor, and no length field.
fixed-IsHeader :
    (first t i len : ℕ)
    → first / 8 % 32 ≡ t
    → first % 8 ≡ i
    → 0 ≡ length_bytes i
    → len ≡ width t i []
    → IsHeader t i (first ∷ []) len
fixed-IsHeader first t i len high low bytes size = record {
  first = first;
  field = [];
  whole = refl;
  high = high;
  low = low;
  field_size = bytes;
  payload_size = size;
}

-- A sequence of a single element, with its length in one byte.
single :
    (bytes : List ℕ) (len : ℕ) (e : DataElement)
    → length bytes ≡ len
    → Encodes bytes e
    → Encodes (0x35 ∷ len ∷ bytes) (sequence (cons e nil))
single bytes len e size derived =
    seq {i = 5} (0x35 ∷ len ∷ []) bytes
      (record {
        first = 0x35;
        field = len ∷ [];
        whole = refl;
        high = refl;
        low = refl;
        field_size = refl;
        payload_size = size ∙ sym (be_value_8 len);
      })
      (more bytes [] derived none (sym (append-nil bytes))) refl

uuid_bytes : (u : ℕ) → IsU16 u → Encodes (0x19 ∷ be_bytes_16 u) (uuid16 u)
uuid_bytes u h =
    subst (λ v. Encodes (0x19 ∷ be_bytes_16 u) (uuid16 v)) (be_value-be_bytes_16 u h)
      (uuid (0x19 ∷ []) (be_bytes_16 u) (fixed-IsHeader 0x19 3 1 2 refl refl refl refl) refl)

uint_bytes : (v : ℕ) → IsU32 v → Encodes (0x0a ∷ be_bytes_32 v) (unsigned_int v)
uint_bytes v h =
    subst (λ x. Encodes (0x0a ∷ be_bytes_32 v) (unsigned_int x)) (be_value-be_bytes_32 v h)
      (uint {i = 2} (0x0a ∷ []) (be_bytes_32 v) (fixed-IsHeader 0x0a 1 2 4 refl refl refl refl)
        (inr (inr refl)) refl)

module _ {E B : Type 0} (n : Nom E B) where
  -- What a reader of the request finds: the header, whose parameter length is the size of what
  -- follows; the sequence of the UUID; the byte count; the sequence of the attribute range; and
  -- the continuation state behind its size.
  pub record IsReadable (r : ServiceSearchAttributeRequest) (pdu : List ℕ) : Type 0 where
    pub parameters : List ℕ
    pub after_pattern : List ℕ
    pub attribute_ids : List ℕ
    pub header :
        pdu_header n pdu
        ≡ ok (
          parameters,
          record {
            pdu_id = 6;
            transaction_id = r.transaction_id;
            parameter_length = length parameters;
          },
        )
    pub pattern_element :
        data_element n (fuel_for parameters) parameters
        ≡ ok (after_pattern, sequence (cons (uuid16 r.service_uuid16) nil))
    pub byte_count : n.be_u16 after_pattern ≡ ok (attribute_ids, r.maximum_attribute_byte_count)
    pub range_element :
        data_element n (fuel_for attribute_ids) attribute_ids
        ≡ ok (
          length r.continuation_state ∷ r.continuation_state,
          sequence (cons (unsigned_int r.attribute_id_range) nil),
        )

module _ {E B F : Type 0} (n : Nom E B) (lawful : IsLawful n) (b : Buf F)
    (appending : IsAppending b) where
  -- A request whose fields have the widths of their types, with at most 255 bytes of continuation
  -- state, is encoded, and reads back to its fields with the decoders of the crate.
  pub encode-IsReadable :
      (r : ServiceSearchAttributeRequest)
      → IsU16 r.transaction_id
      → IsU16 r.service_uuid16
      → IsU16 r.maximum_attribute_byte_count
      → IsU32 r.attribute_id_range
      → length r.continuation_state ≤ 255
      → (pdu : List ℕ) × (encode b r ≡ ok pdu) × IsReadable n r pdu
  encode-IsReadable r ht hu hm hr short =
      let state = length r.continuation_state ∷ r.continuation_state in
      let ids = 0x35 ∷ 0x05 ∷ 0x0a ∷ (be_bytes_32 r.attribute_id_range ++ state) in
      let after = be_bytes_16 r.maximum_attribute_byte_count ++ ids in
      let first = 0x35 ∷ 0x03 ∷ 0x19 ∷ be_bytes_16 r.service_uuid16 in
      let second = 0x35 ∷ 0x05 ∷ 0x0a ∷ be_bytes_32 r.attribute_id_range in
      (
        pdu_bytes r,
        encode_short b appending r short,
        record {
          parameters = body_bytes r;
          after_pattern = after;
          attribute_ids = ids;
          header =
              pdu_header-be_bytes n lawful 6 r.transaction_id (length (body_bytes r)) (body_bytes r)
                ht (omega arith);
          pattern_element =
              (data_element-eq-ok_iff n lawful (body_bytes r) after _).1
                (first, refl, single _ 3 (uuid16 r.service_uuid16) refl (uuid_bytes _ hu));
          byte_count =
              lawful.be_u16_lem after
              ∙ read_uint-append n.eof 2 (be_bytes_16 r.maximum_attribute_byte_count) ids refl
              ∙ ap (λ v. ok (ids, v)) (be_value-be_bytes_16 _ hm);
          range_element =
              (data_element-eq-ok_iff n lawful ids state _).1 (
                second,
                refl,
                single _ 5 (unsigned_int r.attribute_id_range) refl (uint_bytes _ hr),
              );
        },
      )
