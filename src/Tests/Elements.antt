-- ===== src/Tests/Elements.antt =====
-- The theorems on data elements, records and channels, at concrete inputs.
use bluesdp.Prelude.{
  none, refl, arith, length, ◌/◌, ◌%◌, ℕ, ◌≡◌, ◌≢◌, ◌↔◌, List, [], ◌∷◌, ◌++◌, ok, err, inl, inr,
  out_of_fuel, some,
}
use bluesdp.Codec.Element.{
  DataElement, Elements, unsigned_int, uuid16, sequence, nil, cons, data_element, fuel_for,
}
use bluesdp.Codec.Element.Grammar.{Encodes}
use bluesdp.Codec.Element.Total.{data_element-eq-ok_iff, data_element-total}
use bluesdp.Codec.Response.{AttributeList, decode_attribute_lists}
use bluesdp.Codec.Response.Records.{IsResponse, decode_attribute_lists-eq-ok_iff}
use bluesdp.Codec.Extract.{rfcomm_channel}
use bluesdp.Codec.Extract.Search.{FirstAttribute, FirstChannel, rfcomm_channel-eq-some_iff}
use bluesdp.Transport.Session.Query.{channel_of}
use bluesdp.Transport.Session.Answer.{
  FirstRecord, channel_of-eq-some_iff, NoChannel, channel_of-eq-none_iff,
}
use bluesdp.Codec.Element.Wide.{Wide, here, inside, first, later}
use bluesdp.Codec.Element.Grammar.{IsHeader, IsUintWidth, uint, length_bytes, width}
use bluesdp.Codec.Response.Refused.{decode_attribute_lists-Wide}
use bluesdp.Tests.Parsers.{Failure, parsers, parsers-IsLawful}
use bluesdp.Tests.Pages.{attributes}

-- The protocol stack of L2CAP and of RFCOMM on channel 13.
abbrev stack : Elements
stack =
    cons (sequence (cons (uuid16 0x0100) nil))
      (cons (sequence (cons (uuid16 0x0003) (cons (unsigned_int 13) nil))) nil)

abbrev record_elements : Elements
record_elements = cons (unsigned_int 0x0004) (cons (sequence stack) nil)

abbrev attribute_pair : AttributeList
attribute_pair = (0x0004, sequence stack) ∷ []

abbrev response : DataElement
response = sequence (cons (sequence record_elements) nil)

data_element-eq-ok_iff_example :
    (data_element parsers (fuel_for (attributes ++ 0xff ∷ [])) (attributes ++ 0xff ∷ [])
      ≡ ok (0xff ∷ [], response))
    ↔ ((bytes : List ℕ) × (attributes ++ 0xff ∷ [] ≡ bytes ++ 0xff ∷ []) × Encodes bytes response)
data_element-eq-ok_iff_example =
    data_element-eq-ok_iff parsers parsers-IsLawful (attributes ++ 0xff ∷ []) (0xff ∷ []) response

data_element-total_example : data_element parsers (fuel_for attributes) attributes ≢ out_of_fuel
data_element-total_example = data_element-total parsers parsers-IsLawful attributes

decode_attribute_lists-eq-ok_iff_example :
    (decode_attribute_lists parsers attributes ≡ ok ([], attribute_pair ∷ [])) ↔ (
      (outer : DataElement) × (front : List ℕ) × (attributes ≡ front ++ [])
      × Encodes front outer
      × IsResponse outer (attribute_pair ∷ []))
decode_attribute_lists-eq-ok_iff_example =
    decode_attribute_lists-eq-ok_iff parsers parsers-IsLawful attributes [] (attribute_pair ∷ [])

rfcomm_channel-eq-some_iff_example : (rfcomm_channel attribute_pair ≡ some 13) ↔ (
    (protocols : Elements) × FirstAttribute 4 attribute_pair (sequence protocols)
    × FirstChannel protocols 13)
rfcomm_channel-eq-some_iff_example = rfcomm_channel-eq-some_iff attribute_pair 13

channel_of-eq-some_iff_example : (channel_of parsers attributes ≡ ok (some 13)) ↔ (
    (outer : DataElement) × (lists : List AttributeList) × (front rest : List ℕ) × (attributes
      ≡ front ++ rest)
    × Encodes front outer
    × IsResponse outer lists
    × FirstRecord lists 13)
channel_of-eq-some_iff_example = channel_of-eq-some_iff parsers parsers-IsLawful attributes 13

-- A record whose one attribute is an unsigned integer of eight bytes, behind an ID.
abbrev wide : List ℕ
wide = 0x35 ∷ 0x0e ∷ 0x35 ∷ 0x0c ∷ 0x09 ∷ 0x02 ∷ 0x00 ∷ 0x0b ∷ 0 ∷ 0 ∷ 0 ∷ 0 ∷ 0 ∷ 0 ∷ 0 ∷ 1 ∷ []

abbrev eight : List ℕ
eight = 0 ∷ 0 ∷ 0 ∷ 0 ∷ 0 ∷ 0 ∷ 0 ∷ 1 ∷ []

not_eight : ¬ IsUintWidth (length eight)
not_eight (inl h) = absurd (omega arith)
not_eight (inr (inl h)) = absurd (omega arith)
not_eight (inr (inr h)) = absurd (omega arith)

-- The header that a first byte and a length field make.
opens :
    (lead : ℕ) (field : List ℕ) (len : ℕ)
    → length field ≡ length_bytes (lead % 8)
    → len ≡ width (lead / 8 % 32) (lead % 8) field
    → IsHeader (lead / 8 % 32) (lead % 8) (lead ∷ field) len
opens lead field len size payload = record {
  first = lead;
  field = field;
  whole = refl;
  high = refl;
  low = refl;
  field_size = size;
  payload_size = payload;
}

wide-Wide : Wide wide
wide-Wide =
    inside (0x35 ∷ 0x0e ∷ []) (0x35 ∷ 0x0c ∷ 0x09 ∷ 0x02 ∷ 0x00 ∷ 0x0b ∷ eight) []
      (opens 0x35 (0x0e ∷ []) 14 refl refl)
      (first (
        inside (0x35 ∷ 0x0c ∷ []) (0x09 ∷ 0x02 ∷ 0x00 ∷ 0x0b ∷ eight) []
          (opens 0x35 (0x0c ∷ []) 12 refl refl)
          (later (0x09 ∷ 0x02 ∷ 0x00 ∷ []) (0x0b ∷ eight)
            (uint (0x09 ∷ []) (0x02 ∷ 0x00 ∷ []) (opens 0x09 [] 2 refl refl) (inr (inl refl)) refl)
            (first (here (0x0b ∷ []) eight [] (opens 0x0b [] 8 refl refl) not_eight refl)) refl)
          refl))
      refl

decode_attribute_lists-Wide_example : (e : Failure) × (decode_attribute_lists parsers wide ≡ err e)
decode_attribute_lists-Wide_example =
    decode_attribute_lists-Wide parsers parsers-IsLawful wide wide-Wide

-- An empty sequence of records.
channel_of-eq-none_iff_example : (channel_of parsers (0x35 ∷ 0x00 ∷ []) ≡ ok none) ↔ (
    (outer : DataElement) × (lists : List AttributeList) × (front rest : List ℕ) × (0x35 ∷ 0x00 ∷ []
      ≡ front ++ rest)
    × Encodes front outer
    × IsResponse outer lists
    × NoChannel lists)
channel_of-eq-none_iff_example = channel_of-eq-none_iff parsers parsers-IsLawful (0x35 ∷ 0x00 ∷ [])
