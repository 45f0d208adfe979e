-- ===== src/Codec/Encode/Layout.antt =====
-- The bytes of a request, and when there are none.
use bluesdp.Prelude.{
  ℕ, ◌+◌, ◌<◌, ◌≤◌, ◌≡◌, ◌↔◌, List, [], ◌∷◌, ◌++◌, append_assoc, arith, ok, err, leb, length,
  be_bytes_16, be_bytes_32, le→leb, lt→leb_false, Bool-cases, inl, inr, leb→le, leb_false→lt, ap,
  sym, ◌∙◌, ◌%◌,
}
use bluesdp.Buf.{Buf, IsAppending}
use bluesdp.Codec.Encode.{
  ServiceSearchAttributeRequest, EncodeError, continuation_state_too_long, fixed_body, encode,
}

-- The parameters of the PDU before the continuation state: a sequence of one 16-bit UUID, the
-- byte count, and a sequence of one 32-bit number.
abbrev pub fixed_bytes : ServiceSearchAttributeRequest → List ℕ
fixed_bytes r =
    (0x35 ∷ 0x03 ∷ 0x19 ∷ be_bytes_16 r.service_uuid16)
    ++ (be_bytes_16 r.maximum_attribute_byte_count
        ++ (0x35 ∷ 0x05 ∷ 0x0a ∷ be_bytes_32 r.attribute_id_range))

-- The parameters.
abbrev pub body_bytes : ServiceSearchAttributeRequest → List ℕ
body_bytes r = fixed_bytes r ++ (length r.continuation_state ∷ r.continuation_state)

abbrev pub pdu_bytes : ServiceSearchAttributeRequest → List ℕ
pdu_bytes r =
    0x06 ∷ (be_bytes_16 r.transaction_id ++ (be_bytes_16 (length (body_bytes r)) ++ body_bytes r))

module _ {B : Type 0} (b : Buf B) (appending : IsAppending b) where
  open appending use {
    to_vec-new, to_vec-with_capacity, to_vec-put_u8, to_vec-put_u16, to_vec-put_u32,
    to_vec-put_slice, len-to_vec,
  }

  fixed_body_bytes : (r : ServiceSearchAttributeRequest) → b.to_vec (fixed_body b r) ≡ fixed_bytes r
  unfolding fixed_body
  fixed_body_bytes r =
      simp (to_vec-new, to_vec-put_u8, to_vec-put_u16, to_vec-put_u32, append_assoc)

  -- The buffer of the parameters, once the continuation state is put.
  abbrev whole_body : ServiceSearchAttributeRequest → B
  whole_body r =
      b.put_slice (b.put_u8 (fixed_body b r) (length r.continuation_state)) r.continuation_state

  whole_body_bytes :
      (r : ServiceSearchAttributeRequest)
      → length r.continuation_state ≤ 255
      → b.to_vec (whole_body r) ≡ body_bytes r
  whole_body_bytes r h =
      let byte : length r.continuation_state % 256 ≡ length r.continuation_state = omega arith in
      rw (
        to_vec-put_slice,
        to_vec-put_u8,
        fixed_body_bytes r,
        byte,
        append_assoc (fixed_bytes r) (length r.continuation_state ∷ []) r.continuation_state,
      )

  len-whole_body :
      (r : ServiceSearchAttributeRequest)
      → length r.continuation_state ≤ 255
      → b.len (whole_body r) ≡ 15 + length r.continuation_state
  len-whole_body r h = omega (arith, len-to_vec (whole_body r), ap length (whole_body_bytes r h))

  -- A continuation state of at most 255 bytes is encoded; the parameter length is that of the
  -- parameters.
  pub encode_short :
      (r : ServiceSearchAttributeRequest)
      → length r.continuation_state ≤ 255
      → encode b r ≡ ok (pdu_bytes r)
  unfolding encode
  encode_short r h =
      let fits : b.len (whole_body r) ≤ 65535 = omega (arith, len-whole_body r h) in
      let size : b.len (whole_body r) ≡ length (body_bytes r) =
        len-to_vec (whole_body r) ∙ ap length (whole_body_bytes r h) in
      rw (
        le→leb (length r.continuation_state) 255 h,
        le→leb (b.len (whole_body r)) 65535 fits,
        to_vec-put_slice,
        to_vec-put_u16,
        to_vec-put_u16,
        to_vec-put_u8,
        to_vec-with_capacity,
        whole_body_bytes r h,
        size,
      )

  pub encode_long :
      (r : ServiceSearchAttributeRequest)
      → 255 < length r.continuation_state
      → encode b r ≡ err (continuation_state_too_long (length r.continuation_state))
  unfolding encode
  encode_long r h = rw (lt→leb_false (length r.continuation_state) 255 h)

  -- `encode` fails exactly on a continuation state above 255 bytes, and then with its length:
  -- `BodyTooLong` is never returned.
  pub encode-eq-err_iff :
      (r : ServiceSearchAttributeRequest) (e : EncodeError)
      → (encode b r ≡ err e) ↔ (
          (255 < length r.continuation_state)
          × (e ≡ continuation_state_too_long (length r.continuation_state)))
  encode-eq-err_iff r e = elim (Bool-cases (leb (length r.continuation_state) 255)) [
    | inl short ↦
        let h = leb→le (length r.continuation_state) 255 short in
        (λ p. cc (encode_short r h), λ q. absurd (omega (arith, q.0)))
    | inr long ↦
        let h = leb_false→lt (length r.continuation_state) 255 long in
        (λ p. (h, cc (encode_long r h)), λ q. encode_long r h ∙ ap err (sym q.1))
  ]
