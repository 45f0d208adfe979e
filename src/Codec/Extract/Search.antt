-- ===== src/Codec/Extract/Search.antt =====
-- `rfcomm_channel` against a description of what it looks for.
use bluesdp.Prelude.{
  ℕ, ◌≤◌, ◌≡◌, ◌≢◌, ◌↔◌, ◌⊎◌, inl, inr, refl, ap, [], ◌∷◌, arith, Option-cases, none, some,
  some-injective, ◌∙◌, Bool-cases, ◌==◌, ==_iff,
}
use bluesdp.Codec.Element.{
  DataElement, Elements, unsigned_int, uuid16, sequence, unknown, nil, cons,
}
use bluesdp.Codec.Response.{AttributeList}
use bluesdp.Codec.Extract.{
  find_attribute, entry_channel, find_channel, stack_channel, rfcomm_channel,
  protocol_descriptor_list_attr_id,
}

-- The protocol stack entry of RFCOMM on a channel.
abbrev pub rfcomm_entry : ℕ → DataElement
rfcomm_entry channel = sequence (cons (uuid16 3) (cons (unsigned_int channel) nil))

-- An entry of RFCOMM on a channel that a byte can hold.
abbrev pub IsChannelEntry : DataElement → ℕ → Type 0
IsChannelEntry e channel = (e ≡ rfcomm_entry channel) × (channel ≤ 255)

-- The first such entry of a protocol stack.
pub data FirstChannel : Elements → ℕ → Type 0 where
  here :
      (e : DataElement) (es : Elements) {channel : ℕ}
      → IsChannelEntry e channel
      → FirstChannel (cons e es) channel
  there :
      (e : DataElement) {es : Elements} {channel : ℕ}
      → ((other : ℕ) → ¬ IsChannelEntry e other)
      → FirstChannel es channel
      → FirstChannel (cons e es) channel

-- The first attribute with an ID.
pub data FirstAttribute (id : ℕ) : AttributeList → DataElement → Type 0 where
  here :
      (key : ℕ) {value : DataElement} (others : AttributeList)
      → key ≡ id
      → FirstAttribute id ((key, value) ∷ others) value
  there :
      (key : ℕ) (other : DataElement) {value : DataElement} {others : AttributeList}
      → key ≢ id
      → FirstAttribute id others value
      → FirstAttribute id ((key, other) ∷ others) value

entry_channel-eq-some :
    (e : DataElement) (channel : ℕ) → entry_channel e ≡ some channel → IsChannelEntry e channel
unfolding entry_channel
entry_channel-eq-some (sequence (cons (uuid16 u) (cons (unsigned_int c) nil))) channel h =
    ground arith
entry_channel-eq-some _ channel h = cc

entry_channel-IsChannelEntry :
    (e : DataElement) (channel : ℕ) → IsChannelEntry e channel → entry_channel e ≡ some channel
unfolding entry_channel
entry_channel-IsChannelEntry e channel (shape, small) = rw shape (ground arith)

entry_cases :
    (e : DataElement) → ((channel : ℕ) × IsChannelEntry e channel) ⊎ (entry_channel e ≡ none)
entry_cases e = elim (Option-cases (entry_channel e)) [
  | inl absent ↦ inr absent
  | inr (channel, found) ↦ inl (channel, entry_channel-eq-some e channel found)
]

-- The search through a protocol stack stops at its first entry for a channel of one byte, and
-- finds none only if there is no such entry.
find_channel-FirstChannel :
    {es : Elements} {channel : ℕ} → FirstChannel es channel → find_channel es ≡ some channel
unfolding find_channel
find_channel-FirstChannel (here e es {channel} found) =
    rw (entry_channel-IsChannelEntry e channel found)
find_channel-FirstChannel (there e absent others) = elim (entry_cases e) [
  | inl (other, found) ↦ absurd (absent other found)
  | inr none_here ↦ rw none_here (find_channel-FirstChannel others)
]

FirstChannel-find_channel :
    (es : Elements) (channel : ℕ) → find_channel es ≡ some channel → FirstChannel es channel
unfolding find_channel
FirstChannel-find_channel nil channel h = cc
FirstChannel-find_channel (cons e es) channel h = elim (entry_cases e) [
  | inl (other, found) ↦
      let at_once = rw (entry_channel-IsChannelEntry e other found) at h in
      here e es (rw (some-injective other channel at_once) at found)
  | inr none_here ↦
      there e (λ other found. let hit = entry_channel-IsChannelEntry e other found in cc)
        (FirstChannel-find_channel es channel (rw none_here at h))
]

find_attribute-FirstAttribute :
    (id : ℕ) {list : AttributeList} {value : DataElement}
    → FirstAttribute id list value
    → find_attribute id list ≡ some value
unfolding find_attribute
find_attribute-FirstAttribute id (here key others same) = rw ((==_iff key id).1 same)
find_attribute-FirstAttribute id (there key other differs others) =
    ground (arith, find_attribute-FirstAttribute id others)

FirstAttribute-find_attribute :
    (id : ℕ) (list : AttributeList) (value : DataElement)
    → find_attribute id list ≡ some value
    → FirstAttribute id list value
unfolding find_attribute
FirstAttribute-find_attribute id [] value h = cc
FirstAttribute-find_attribute id ((key, other) ∷ list) value h = elim (Bool-cases (key == id)) [
  | inl same ↦
      let found = some-injective other value (rw same at h) in
      rw (← found) (here key list ((==_iff key id).0 same))
  | inr differs ↦
      there key other (λ p. let hit = (==_iff key id).1 p in cc)
        (FirstAttribute-find_attribute id list value (rw differs at h))
]

stack_channel-eq-some :
    (value : DataElement) (channel : ℕ)
    → stack_channel value ≡ some channel
    → (stack : Elements) × (value ≡ sequence stack) × FirstChannel stack channel
unfolding stack_channel
stack_channel-eq-some (sequence stack) channel h =
    (stack, refl, FirstChannel-find_channel stack channel h)
stack_channel-eq-some (unsigned_int _) channel h = cc
stack_channel-eq-some (uuid16 _) channel h = cc
stack_channel-eq-some unknown channel h = cc

-- A record has a channel exactly when its first ProtocolDescriptorList is a sequence, and the
-- channel is that of the first RFCOMM entry there whose channel fits a byte.
pub rfcomm_channel-eq-some_iff :
    (list : AttributeList) (channel : ℕ)
    → (rfcomm_channel list ≡ some channel) ↔ (
        (stack : Elements) × FirstAttribute protocol_descriptor_list_attr_id list (sequence stack)
        × FirstChannel stack channel)
unfolding rfcomm_channel stack_channel
rfcomm_channel-eq-some_iff list channel = (
  λ h. elim (Option-cases (find_attribute protocol_descriptor_list_attr_id list)) [
    | inl absent ↦ let missing = rw (absent, rfcomm_channel) at h in cc
    | inr (value, found) ↦
        let (stack, shape, first) =
          stack_channel-eq-some value channel (rw (found, rfcomm_channel) at h) in
        (
          stack,
          FirstAttribute-find_attribute 4 list (sequence stack) (found ∙ ap some shape),
          first,
        )
  ],
  λ (stack, attribute, first).
      rw (find_attribute-FirstAttribute 4 attribute, rfcomm_channel)
        (find_channel-FirstChannel first),
)

pub FirstChannel-le : {es : Elements} {channel : ℕ} → FirstChannel es channel → channel ≤ 255
FirstChannel-le (here e es found) = found.1
FirstChannel-le (there e absent others) = FirstChannel-le others
