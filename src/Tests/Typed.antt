-- ===== src/Tests/Typed.antt =====
-- The theorems on the ranges of decoded numbers, at concrete inputs.
use bluesdp.Prelude.{◌≡◌, ℕ, refl, List, [], ◌∷◌, arith, ok, All, IsByte}
use bluesdp.Nom.Split.{split, read_uint}
use bluesdp.Codec.Descriptor.{descriptor, resolve_size}
use bluesdp.Codec.Element.{
  DataElement, unsigned_int, sequence, nil, cons, push, payload_len, uint_value, uuid16_value,
  element_value, data_element, fuel_for,
}
use bluesdp.Codec.Element.Typed.{IsTyped, data_element-IsTyped}
use bluesdp.Codec.Response.{
  AttributeList, attribute, attribute_pairs, attribute_list, record_attributes, collect_records,
  attribute_lists_of, decode_attribute_lists,
}
use bluesdp.Codec.Response.Typed.{IsTypedList, decode_attribute_lists-IsTypedList}
use bluesdp.Tests.Parsers.{parsers, parsers-IsLawful}

-- One record, with the integer 13 under the ID 1.
abbrev input : List ℕ
input = 0x35 ∷ 0x07 ∷ 0x35 ∷ 0x05 ∷ 0x09 ∷ 0x00 ∷ 0x01 ∷ 0x08 ∷ 0x0d ∷ []

input-IsByte : All IsByte input
input-IsByte = (
  omega arith,
  (
    omega arith,
    (
      omega arith,
      (omega arith, (omega arith, (omega arith, (omega arith, (omega arith, (omega arith, tt)))))),
    ),
  ),
)

abbrev element : DataElement
element = sequence (cons (sequence (cons (unsigned_int 1) (cons (unsigned_int 13) nil))) nil)

decodes : data_element parsers (fuel_for input) input ≡ ok ([], element)
unfolding split read_uint descriptor resolve_size push payload_len uint_value uuid16_value
    element_value data_element
decodes = refl

data_element-IsTyped_example : IsTyped element
data_element-IsTyped_example =
    data_element-IsTyped parsers parsers-IsLawful input [] element input-IsByte decodes

abbrev list : AttributeList
list = (1, unsigned_int 13) ∷ []

decodes_lists : decode_attribute_lists parsers input ≡ ok ([], list ∷ [])
unfolding split read_uint descriptor resolve_size push payload_len uint_value uuid16_value
    element_value data_element attribute attribute_pairs attribute_list record_attributes
    collect_records attribute_lists_of decode_attribute_lists
decodes_lists = refl

decode_attribute_lists-IsTypedList_example : All IsTypedList (list ∷ [])
decode_attribute_lists-IsTypedList_example =
    decode_attribute_lists-IsTypedList parsers parsers-IsLawful input [] (list ∷ []) input-IsByte
      decodes_lists
