-- ===== src/Transport/Session/Answer.antt =====
-- What `find_rfcomm_channel` makes of the attribute bytes, described without the decoders.
use bluesdp.Prelude.{
  refl, All, none, ℕ, ◌≡◌, ◌↔◌, ap, ◌∙◌, List, [], ◌∷◌, ◌++◌, ok, >>=-eq-ok, map_err, map_err-eq-ok,
  Option-cases, some, some-injective, ok-injective, find_map, inl, inr,
}
use bluesdp.Nom.{Nom, IsLawful}
use bluesdp.Codec.Element.{DataElement, Elements, sequence}
use bluesdp.Codec.Element.Grammar.{Encodes}
use bluesdp.Codec.Response.{AttributeList, decode_attribute_lists}
use bluesdp.Codec.Response.Records.{IsResponse, decode_attribute_lists-eq-ok_iff}
use bluesdp.Codec.Extract.{rfcomm_channel, protocol_descriptor_list_attr_id}
use bluesdp.Codec.Extract.Search.{FirstAttribute, FirstChannel, rfcomm_channel-eq-some_iff}
use bluesdp.Transport.Session.{decode}
use bluesdp.Transport.Session.Query.{channel_of}

-- The record has this channel.
abbrev pub HasChannel : AttributeList → ℕ → Type 0
HasChannel list channel =
    (stack : Elements) × FirstAttribute protocol_descriptor_list_attr_id list (sequence stack)
    × FirstChannel stack channel

-- The first of the records that have a channel has this one.
pub data FirstRecord : List AttributeList → ℕ → Type 0 where
  here :
      (list : AttributeList) (lists : List AttributeList) {channel : ℕ}
      → HasChannel list channel
      → FirstRecord (list ∷ lists) channel
  there :
      (list : AttributeList) {lists : List AttributeList} {channel : ℕ}
      → ((other : ℕ) → ¬ HasChannel list other)
      → FirstRecord lists channel
      → FirstRecord (list ∷ lists) channel

find_map-FirstRecord :
    {lists : List AttributeList} {channel : ℕ}
    → FirstRecord lists channel
    → find_map rfcomm_channel lists ≡ some channel
find_map-FirstRecord (here list lists {channel} found) =
    rw ((rfcomm_channel-eq-some_iff list channel).1 found)
find_map-FirstRecord (there list absent others) = elim (Option-cases (rfcomm_channel list)) [
  | inl nothing ↦ rw nothing (find_map-FirstRecord others)
  | inr (other, found) ↦ absurd (absent other ((rfcomm_channel-eq-some_iff list other).0 found))
]

FirstRecord-find_map :
    (lists : List AttributeList) (channel : ℕ)
    → find_map rfcomm_channel lists ≡ some channel
    → FirstRecord lists channel
FirstRecord-find_map [] channel h = cc
FirstRecord-find_map (list ∷ lists) channel h = elim (Option-cases (rfcomm_channel list)) [
  | inl nothing ↦
      there list (λ other found. let hit = (rfcomm_channel-eq-some_iff list other).1 found in cc)
        (FirstRecord-find_map lists channel (rw nothing at h))
  | inr (other, found) ↦
      let at_once = some-injective other channel (rw found at h) in
      here list lists ((rfcomm_channel-eq-some_iff list channel).0 (found ∙ ap some at_once))
]

-- No record has a channel.
abbrev pub NoChannel : List AttributeList → Type 0
NoChannel = All λ list. (channel : ℕ) → ¬ HasChannel list channel

find_map-NoChannel :
    (lists : List AttributeList) → NoChannel lists → find_map rfcomm_channel lists ≡ none
find_map-NoChannel [] absent = refl
find_map-NoChannel (list ∷ lists) (absent, others) = elim (Option-cases (rfcomm_channel list)) [
  | inl nothing ↦ rw nothing (find_map-NoChannel lists others)
  | inr (channel, found) ↦
      absurd (absent channel ((rfcomm_channel-eq-some_iff list channel).0 found))
]

NoChannel-find_map :
    (lists : List AttributeList) → find_map rfcomm_channel lists ≡ none → NoChannel lists
NoChannel-find_map [] h = tt
NoChannel-find_map (list ∷ lists) h = elim (Option-cases (rfcomm_channel list)) [
  | inl nothing ↦ (
    λ channel found. let hit = (rfcomm_channel-eq-some_iff list channel).1 found in cc,
    NoChannel-find_map lists (rw nothing at h),
  )
  | inr (channel, found) ↦ let hit = rw found at h in cc
]

module _ {E B : Type 0} (n : Nom E B) (lawful : IsLawful n) where
  -- Attribute bytes give a channel exactly when bytes at their front encode a response with a
  -- record that has a channel, and it is that of the first such record: records without one are
  -- passed over.
  pub channel_of-eq-some_iff :
      (bytes : List ℕ) (channel : ℕ)
      → (channel_of n bytes ≡ ok (some channel)) ↔ (
          (outer : DataElement) × (lists : List AttributeList) × (front rest : List ℕ) × (bytes
            ≡ front ++ rest)
          × Encodes front outer
          × IsResponse outer lists
          × FirstRecord lists channel)
  channel_of-eq-some_iff bytes channel = (
    λ h.
        let ((rest, lists), read, e) =
          >>=-eq-ok (map_err (λ _. decode) (decode_attribute_lists n bytes)) _ h in
        let decoded = map_err-eq-ok (λ _. decode) (decode_attribute_lists n bytes) read in
        let (outer, front, whole, derived, shaped) =
          (decode_attribute_lists-eq-ok_iff n lawful bytes rest lists).0 decoded in
        let found = FirstRecord-find_map lists channel (ok-injective e) in
        (outer, lists, front, rest, whole, derived, shaped, found),
    λ (outer, lists, front, rest, whole, derived, shaped, first). rw (
      (decode_attribute_lists-eq-ok_iff n lawful bytes rest lists).1
          (outer, front, whole, derived, shaped),
      find_map-FirstRecord first,
    ),
  )

  -- Attribute bytes give no channel, and no error, exactly when bytes at their front encode a
  -- response none of whose records has a channel: there may be records, and the element need not
  -- be a sequence.
  pub channel_of-eq-none_iff :
      (bytes : List ℕ)
      → (channel_of n bytes ≡ ok none) ↔ (
          (outer : DataElement) × (lists : List AttributeList) × (front rest : List ℕ) × (bytes
            ≡ front ++ rest)
          × Encodes front outer
          × IsResponse outer lists
          × NoChannel lists)
  channel_of-eq-none_iff bytes = (
    λ h.
        let ((rest, lists), read, e) =
          >>=-eq-ok (map_err (λ _. decode) (decode_attribute_lists n bytes)) _ h in
        let decoded = map_err-eq-ok (λ _. decode) (decode_attribute_lists n bytes) read in
        let (outer, front, whole, derived, shaped) =
          (decode_attribute_lists-eq-ok_iff n lawful bytes rest lists).0 decoded in
        let absent = NoChannel-find_map lists (ok-injective e) in
        (outer, lists, front, rest, whole, derived, shaped, absent),
    λ (outer, lists, front, rest, whole, derived, shaped, absent). rw (
      (decode_attribute_lists-eq-ok_iff n lawful bytes rest lists).1
          (outer, front, whole, derived, shaped),
      find_map-NoChannel lists absent,
    ),
  )
