-- ===== src/Codec/Response/Typed.antt =====
-- The attribute lists of a response, against the types of their IDs and values in
-- src/codec/response.rs.
use bluesdp.Prelude.{ℕ, ◌≡◌, List, arith, ok, All, All-left, IsByte, IsU16}
use bluesdp.Nom.{Nom, IsLawful}
use bluesdp.Codec.Element.{
  DataElement, Elements, unsigned_int, uuid16, sequence, unknown, nil, cons,
}
use bluesdp.Codec.Element.Typed.{IsTyped, AllTyped, Encodes-IsTyped}
use bluesdp.Codec.Response.{AttributeList, decode_attribute_lists}
use bluesdp.Codec.Response.Records.{
  IsPaired, done, pair, IsRecord, IsRecords, IsResponse, decode_attribute_lists-eq-ok_iff,
}

-- `AttributeList` is a vector of pairs of a `u16` and a data element.
abbrev pub IsTypedList : AttributeList → Type 0
IsTypedList = All λ (p : ℕ × DataElement). IsU16 p.0 × IsTyped p.1

IsPaired-IsTypedList :
    {es : Elements} {list : AttributeList} → IsPaired es list → AllTyped es → IsTypedList list
IsPaired-IsTypedList done typed = tt
IsPaired-IsTypedList (pair id value small others) (_, (typed, rest)) =
    ((omega (arith, small), typed), IsPaired-IsTypedList others rest)

IsRecord-IsTypedList :
    (e : DataElement) (list : AttributeList) → IsRecord e list → IsTyped e → IsTypedList list
IsRecord-IsTypedList (sequence es) list paired typed = IsPaired-IsTypedList paired typed
IsRecord-IsTypedList (unsigned_int _) list empty typed = rw empty tt
IsRecord-IsTypedList (uuid16 _) list empty typed = rw empty tt
IsRecord-IsTypedList unknown list empty typed = rw empty tt

IsRecords-IsTypedList :
    (es : Elements) (lists : List AttributeList)
    → IsRecords es lists
    → AllTyped es
    → All IsTypedList lists
IsRecords-IsTypedList nil lists empty typed = rw empty tt
IsRecords-IsTypedList (cons e es) lists (list, others, whole, first, rest) (typed, all) =
    rw whole (IsRecord-IsTypedList e list first typed, IsRecords-IsTypedList es others rest all)

IsResponse-IsTypedList :
    (outer : DataElement) (lists : List AttributeList)
    → IsResponse outer lists
    → IsTyped outer
    → All IsTypedList lists
IsResponse-IsTypedList (sequence es) lists records typed =
    IsRecords-IsTypedList es lists records typed
IsResponse-IsTypedList (unsigned_int _) lists empty typed = rw empty tt
IsResponse-IsTypedList (uuid16 _) lists empty typed = rw empty tt
IsResponse-IsTypedList unknown lists empty typed = rw empty tt

-- If bytes decode to attribute lists, every attribute ID is below 2^16, and in every value, at any
-- depth, the integers are below 2^32 and the UUIDs below 2^16.
pub decode_attribute_lists-IsTypedList :
    {E B : Type 0} (n : Nom E B) (lawful : IsLawful n) (bytes rest : List ℕ)
    (lists : List AttributeList)
    → All IsByte bytes
    → decode_attribute_lists n bytes ≡ ok (rest, lists)
    → All IsTypedList lists
decode_attribute_lists-IsTypedList n lawful bytes rest lists all h =
    let (outer, front, whole, derived, shaped) =
      (decode_attribute_lists-eq-ok_iff n lawful bytes rest lists).0 h in
    IsResponse-IsTypedList outer lists shaped
      (Encodes-IsTyped derived (All-left IsByte front rest (rw whole at all)))
