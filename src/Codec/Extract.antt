-- ===== src/Codec/Extract.antt =====
-- src/codec/extract.rs: the RFCOMM channel of a service record.
pub mod Search
use bluesdp.Prelude.{
  ℕ, List, [], ◌∷◌, Bool, Option, none, some, ◌==◌, ◌&&◌, if◌then◌else◌, or_else, find_map, Result,
  ok, err, out_of_fuel,
}
use bluesdp.Codec.Encode.{u8_try_from}
use bluesdp.Codec.Element.{DataElement, Elements, unsigned_int, uuid16, sequence, nil, cons}
use bluesdp.Codec.Response.{AttributeList}

abbrev pub protocol_descriptor_list_attr_id : ℕ
protocol_descriptor_list_attr_id = 0x0004

abbrev pub rfcomm_uuid : ℕ
rfcomm_uuid = 0x0003

-- `Result::ok`
abbrev pub ok? {ℓ κ} : {E : Type ℓ} {A : Type κ} → Result E A → Option A
ok? (ok a) = some a
ok? (err _) = none
ok? out_of_fuel = none

-- `find` on the attribute ID, and `map` to the value.
unfoldable pub find_attribute : ℕ → AttributeList → Option DataElement
find_attribute id [] = none
find_attribute id ((key, value) ∷ attributes) =
    if key == id then some value else find_attribute id attributes

-- The closure of `find_map`, over one entry of the protocol stack.
unfoldable pub entry_channel : DataElement → Option ℕ
entry_channel (sequence (cons (uuid16 uuid) (cons (unsigned_int channel) nil))) =
    if uuid == rfcomm_uuid then ok? (u8_try_from channel) else none
entry_channel _ = none

unfoldable pub find_channel : Elements → Option ℕ
find_channel nil = none
find_channel (cons entry entries) = or_else (entry_channel entry) (find_channel entries)

unfoldable pub stack_channel : DataElement → Option ℕ
stack_channel (sequence protocol_stack) = find_channel protocol_stack
stack_channel _ = none

unfoldable pub rfcomm_channel : AttributeList → Option ℕ
rfcomm_channel attributes = elim (find_attribute protocol_descriptor_list_attr_id attributes) [
  | none ↦ none
  | some value ↦ stack_channel value
]
