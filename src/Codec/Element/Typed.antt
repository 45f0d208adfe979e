-- ===== src/Codec/Element/Typed.antt =====
-- The numbers in a decoded element, against the integer types of the fields in src/codec/element.rs.
use bluesdp.Prelude.{
  ℕ, ◌≤◌, ◌≡◌, List, [], ◌∷◌, ◌++◌, arith, ok, inl, inr, length, All, All-left, All-right, IsByte,
  IsU16, IsU32, be_value,
}
use bluesdp.Nom.{Nom, IsLawful}
use bluesdp.Codec.Element.{
  DataElement, Elements, unsigned_int, uuid16, sequence, unknown, nil, cons, data_element, fuel_for,
}
use bluesdp.Codec.Element.Grammar.{
  Encodes, EncodesAll, IsUintWidth, uint, uuid, seq, other, none, more,
}
use bluesdp.Codec.Element.Total.{data_element-eq-ok_iff}

-- At most four bytes of an `UnsignedInt(u128)` are in use, and `Uuid16(u16)` is full, at any depth.
abbrev mutual
  pub IsTyped : DataElement → Type 0
  IsTyped (unsigned_int value) = IsU32 value
  IsTyped (uuid16 value) = IsU16 value
  IsTyped (sequence elements) = AllTyped elements
  IsTyped unknown = Unit {0}

  pub AllTyped : Elements → Type 0
  AllTyped nil = Unit {0}
  AllTyped (cons e es) = IsTyped e × AllTyped es

-- The numbers of two bytes, and of the widths of an integer.
be_value-IsU16 : (bytes : List ℕ) → All IsByte bytes → length bytes ≡ 2 → IsU16 (be_value bytes)
be_value-IsU16 [] all size = absurd (omega arith)
be_value-IsU16 (a ∷ []) all size = absurd (omega arith)
be_value-IsU16 (a ∷ b ∷ []) (first, (second, _)) size = omega arith
be_value-IsU16 (a ∷ b ∷ c ∷ bytes) all size = absurd (omega arith)

be_value-IsU32 : (bytes : List ℕ) → All IsByte bytes → length bytes ≤ 4 → IsU32 (be_value bytes)
be_value-IsU32 [] all size = omega arith
be_value-IsU32 (a ∷ []) (first, _) size = omega arith
be_value-IsU32 (a ∷ b ∷ []) (first, (second, _)) size = omega arith
be_value-IsU32 (a ∷ b ∷ c ∷ []) (first, (second, (third, _))) size = omega arith
be_value-IsU32 (a ∷ b ∷ c ∷ d ∷ []) (first, (second, (third, (fourth, _)))) size = omega arith
be_value-IsU32 (a ∷ b ∷ c ∷ d ∷ e ∷ bytes) all size = absurd (omega arith)

IsUintWidth-le : {k : ℕ} → IsUintWidth k → k ≤ 4
IsUintWidth-le (inl one) = omega arith
IsUintWidth-le (inr (inl two)) = omega arith
IsUintWidth-le (inr (inr four)) = omega arith

-- The payload behind a header.
body_bytes :
    (header body bytes : List ℕ) → bytes ≡ header ++ body → All IsByte bytes → All IsByte body
body_bytes header body bytes whole all = All-right IsByte header body (rw whole at all)

mutual
  pub Encodes-IsTyped :
      {bytes : List ℕ} {e : DataElement} → Encodes bytes e → All IsByte bytes → IsTyped e
  Encodes-IsTyped (uint header body {bytes} h w whole) all =
      be_value-IsU32 body (body_bytes header body bytes whole all) (IsUintWidth-le w)
  Encodes-IsTyped (uuid header body {bytes} h whole) all =
      be_value-IsU16 body (body_bytes header body bytes whole all) h.payload_size
  Encodes-IsTyped (seq header body {bytes} h inner whole) all =
      EncodesAll-AllTyped inner (body_bytes header body bytes whole all)
  Encodes-IsTyped (other header body h a b c whole) all = tt

  EncodesAll-AllTyped :
      {bytes : List ℕ} {es : Elements} → EncodesAll bytes es → All IsByte bytes → AllTyped es
  EncodesAll-AllTyped none all = tt
  EncodesAll-AllTyped (more front back {bytes} first others whole) all =
      let bytes_of = rw whole at all in
      (
        Encodes-IsTyped first (All-left IsByte front back bytes_of),
        EncodesAll-AllTyped others (All-right IsByte front back bytes_of),
      )

-- From bytes, whatever they are, a decoded element has in each unsigned integer, at any depth, a
-- number below 2^32, and in each UUID one below 2^16, which is what its field can hold.
pub data_element-IsTyped :
    {E B : Type 0} (n : Nom E B) (lawful : IsLawful n) (input rest : List ℕ) (e : DataElement)
    → All IsByte input
    → data_element n (fuel_for input) input ≡ ok (rest, e)
    → IsTyped e
data_element-IsTyped n lawful input rest e all h =
    let (front, whole, derived) = (data_element-eq-ok_iff n lawful input rest e).0 h in
    Encodes-IsTyped derived (All-left IsByte front rest (rw whole at all))
