-- ===== src/Codec/Encode.antt =====
-- src/codec/encode.rs: the request PDU.
pub mod Layout
pub mod Readable
use bluesdp.Prelude.{ℕ, ◌+◌, List, Result, ok, err, ◌>>=◌, map_err, leb, if◌then◌else◌, length}
use bluesdp.Buf.{Buf}

pub record ServiceSearchAttributeRequest : Type 0 where
  pub transaction_id : ℕ
  pub service_uuid16 : ℕ
  pub maximum_attribute_byte_count : ℕ
  pub attribute_id_range : ℕ
  pub continuation_state : List ℕ

abbrev pub pdu_id_service_search_attribute_request : ℕ
pdu_id_service_search_attribute_request = 0x06

abbrev pub sequence_len_3 : ℕ
sequence_len_3 = 0x35

abbrev pub uuid16_descriptor : ℕ
uuid16_descriptor = 0x19

abbrev pub uint32_descriptor : ℕ
uint32_descriptor = 0x0a

pub data EncodeError : Type 0 where
  continuation_state_too_long : ℕ → EncodeError
  body_too_long : ℕ → EncodeError

-- `u8::try_from` and `u16::try_from` on an unsigned number; the error carries nothing.
abbrev pub u8_try_from : ℕ → Result (Unit {0}) ℕ
u8_try_from x = if leb x 255 then ok x else err tt

abbrev pub u16_try_from : ℕ → Result (Unit {0}) ℕ
u16_try_from x = if leb x 65535 then ok x else err tt

module _ {B : Type 0} (b : Buf B) where
  open b use {put_u8, put_u16, put_u32, put_slice, new, with_capacity, len, to_vec}

  -- The body up to the continuation state, as `encode` writes it.
  unfoldable pub fixed_body : ServiceSearchAttributeRequest → B
  fixed_body request =
      let pattern =
        put_u16 (put_u8 (put_u8 (put_u8 new sequence_len_3) 0x03) uuid16_descriptor)
          request.service_uuid16 in
      let count = put_u16 pattern request.maximum_attribute_byte_count in
      put_u32 (put_u8 (put_u8 (put_u8 count sequence_len_3) 0x05) uint32_descriptor)
        request.attribute_id_range

  unfoldable pub encode : ServiceSearchAttributeRequest → Result EncodeError (List ℕ)
  encode request = do
    let body = fixed_body request
    continuation_len ←
        map_err (λ _. continuation_state_too_long (length request.continuation_state))
          (u8_try_from (length request.continuation_state))
    let whole = put_slice (put_u8 body continuation_len) request.continuation_state
    param_len ← map_err (λ _. body_too_long (len whole)) (u16_try_from (len whole))
    let header =
        put_u16
          (put_u16 (put_u8 (with_capacity (len whole + 5)) pdu_id_service_search_attribute_request)
            request.transaction_id)
          param_len
    ok (to_vec (put_slice header (to_vec whole)))
