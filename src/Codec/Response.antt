-- ===== src/Codec/Response.antt =====
-- src/codec/response.rs: the response PDU, framed and then interpreted.
pub mod Framing
pub mod Records
pub mod Refused
pub mod Total
pub mod Typed
use bluesdp.Prelude.{
  ℕ, ◌+◌, ◌%◌, List, [], ◌∷◌, Result, ok, err, out_of_fuel, ◌>>=◌, map_err, ◌==◌, not,
  if◌then◌else◌, leb,
}
use bluesdp.Nom.{Nom, IResult}
use bluesdp.Codec.PduHeader.{PduHeader, pdu_header}
use bluesdp.Codec.Encode.{u16_try_from}
use bluesdp.Codec.Element.{
  DataElement, Elements, unsigned_int, sequence, nil, cons, data_element, fuel_for,
}

abbrev pub AttributeList : Type 0
AttributeList = List (ℕ × DataElement)

pub record RawServiceSearchAttributeResponse : Type 0 where
  pub header : PduHeader
  pub attribute_bytes : List ℕ
  pub continuation_state : List ℕ

-- `elements.len()`
abbrev pub elements_len : Elements → ℕ
elements_len nil = 0
elements_len (cons _ es) = 1 + elements_len es

module _ {E B : Type 0} (n : Nom E B) where
  unfoldable pub reject : List ℕ → E
  reject input = n.verify input

  unfoldable pub raw_response : List ℕ → IResult E RawServiceSearchAttributeResponse
  raw_response input = do
    (after_header, header) ← pdu_header n input
    (after_len, attribute_bytes_len) ← n.be_u16 after_header
    (after_bytes, attribute_bytes) ← n.take attribute_bytes_len after_len
    (after_state_len, continuation_len) ← n.be_u8 after_bytes
    (rest, continuation_bytes) ← n.take continuation_len after_state_len
    ok (
      rest,
      record {
        header = header;
        attribute_bytes = attribute_bytes;
        continuation_state = continuation_bytes;
      },
    )

  -- The closure over a chunk of two elements.
  unfoldable pub attribute : DataElement → DataElement → Result E (ℕ × DataElement)
  unfolding reject
  attribute (unsigned_int id) value =
      map_err (λ _. reject []) (u16_try_from id) >>= λ id'. ok (id', value)
  attribute _ value = err (reject [])

  -- `chunks_exact(2)`, `map` and `collect`, which stops at the first error.
  unfoldable pub attribute_pairs : Elements → Result E AttributeList
  attribute_pairs (cons key (cons value es)) = do
    pair ← attribute key value
    pairs ← attribute_pairs es
    ok (pair ∷ pairs)
  attribute_pairs _ = ok []

  unfoldable pub attribute_list : Elements → Result E AttributeList
  attribute_list elements =
      if not (elements_len elements % 2 == 0) then err (reject []) else attribute_pairs elements

  unfoldable pub record_attributes : DataElement → Result E AttributeList
  record_attributes (sequence elements) = attribute_list elements
  record_attributes _ = ok []

  -- `map` and `collect` over the records.
  unfoldable pub collect_records : Elements → Result E (List AttributeList)
  collect_records nil = ok []
  collect_records (cons element es) = do
    list ← record_attributes element
    lists ← collect_records es
    ok (list ∷ lists)

  unfoldable pub attribute_lists_of : List ℕ → DataElement → Result E (List AttributeList)
  attribute_lists_of attribute_bytes (sequence records) =
      map_err (λ _. reject attribute_bytes) (collect_records records)
  attribute_lists_of attribute_bytes _ = ok []

  unfoldable pub decode_attribute_lists : List ℕ → IResult E (List AttributeList)
  decode_attribute_lists attribute_bytes = do
    (rest, outer) ← data_element n (fuel_for attribute_bytes) attribute_bytes
    attribute_lists ← attribute_lists_of attribute_bytes outer
    ok (rest, attribute_lists)
