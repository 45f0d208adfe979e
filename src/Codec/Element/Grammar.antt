-- ===== src/Codec/Element/Grammar.antt =====
-- The data elements of the Bluetooth Core Specification, Vol 3, Part B, Section 3, as far as
-- src/codec/element.rs decodes them: a relation between byte strings and elements that is stated
-- without the parser.
use bluesdp.Prelude.{
  ℕ, ◌-◌, ◌/◌, ◌%◌, ◌^◌, ◌≡◌, ◌≢◌, ◌⊎◌, List, [], ◌∷◌, ◌++◌, ◌&&◌, ◌==◌, leb, if◌then◌else◌, length,
  be_value, ap, length-append, arith, ◌<◌,
}
use bluesdp.Codec.Element.{
  DataElement, Elements, unsigned_int, uuid16, sequence, unknown, nil, cons, uint_type, uuid_type,
  sequence_type,
}

-- How many bytes of length follow a descriptor with size index `i`.
abbrev pub length_bytes : ℕ → ℕ
length_bytes i = if leb 5 i then 2 ^ (i - 5) else 0

-- The payload's size: given by the length field, or by the size index, 0 for Nil.
abbrev pub width : ℕ → ℕ → List ℕ → ℕ
width t i field = if leb 5 i then be_value field else if t == 0 && i == 0 then 0 else 2 ^ i

-- `header` opens an element of type `t` and size index `i` with a payload of `len` bytes.
pub record IsHeader (t i : ℕ) (header : List ℕ) (len : ℕ) : Type 0 where
  pub first : ℕ
  pub field : List ℕ
  pub whole : header ≡ first ∷ field
  pub high : first / 8 % 32 ≡ t
  pub low : first % 8 ≡ i
  pub field_size : length field ≡ length_bytes i
  pub payload_size : len ≡ width t i field

-- The widths of an unsigned integer that are decoded.
abbrev pub IsUintWidth : ℕ → Type 0
IsUintWidth k = (k ≡ 1) ⊎ (k ≡ 2) ⊎ (k ≡ 4)

mutual
  pub data Encodes : List ℕ → DataElement → Type 0 where
    uint :
        {i : ℕ} (header body : List ℕ) {bytes : List ℕ}
        → IsHeader uint_type i header (length body)
        → IsUintWidth (length body)
        → bytes ≡ header ++ body
        → Encodes bytes (unsigned_int (be_value body))
    uuid :
        (header body : List ℕ) {bytes : List ℕ}
        → IsHeader uuid_type 1 header (length body)
        → bytes ≡ header ++ body
        → Encodes bytes (uuid16 (be_value body))
    seq :
        {i : ℕ} (header body : List ℕ) {bytes : List ℕ} {elements : Elements}
        → IsHeader sequence_type i header (length body)
        → EncodesAll body elements
        → bytes ≡ header ++ body
        → Encodes bytes (sequence elements)
    other :
        {t i : ℕ} (header body : List ℕ) {bytes : List ℕ}
        → IsHeader t i header (length body)
        → t ≢ uint_type
        → ¬ ((t ≡ uuid_type) × (i ≡ 1))
        → t ≢ sequence_type
        → bytes ≡ header ++ body
        → Encodes bytes unknown

  pub data EncodesAll : List ℕ → Elements → Type 0 where
    none : EncodesAll [] nil
    more :
        (front back : List ℕ) {bytes : List ℕ} {element : DataElement} {elements : Elements}
        → Encodes front element
        → EncodesAll back elements
        → bytes ≡ front ++ back
        → EncodesAll bytes (cons element elements)

IsHeader-pos : {t i len : ℕ} {header : List ℕ} → IsHeader t i header len → 0 < length header
IsHeader-pos h = rw h.whole (omega arith)

pub length-header :
    {t i len : ℕ} {header bytes : List ℕ} (body : List ℕ)
    → IsHeader t i header len
    → bytes ≡ header ++ body
    → length body < length bytes
length-header {header} body h whole =
    omega (arith, IsHeader-pos h, ap length whole, length-append header body)

-- No element takes no byte.
pub Encodes-pos : {bytes : List ℕ} {e : DataElement} → Encodes bytes e → 0 < length bytes
Encodes-pos (uint header body h w whole) = omega (arith, length-header body h whole)
Encodes-pos (uuid header body h whole) = omega (arith, length-header body h whole)
Encodes-pos (seq header body h inner whole) = omega (arith, length-header body h whole)
Encodes-pos (other header body h a b c whole) = omega (arith, length-header body h whole)
