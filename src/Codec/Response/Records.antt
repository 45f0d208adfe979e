-- ===== src/Codec/Response/Records.antt =====
-- `decode_attribute_lists` against the shape of a list of service records.
use bluesdp.Prelude.{
  ℕ, ◌%◌, ◌≤◌, ◌≡◌, ◌↔◌, refl, sym, List, [], ◌∷◌, ◌++◌, arith, ok, >>=-eq-ok, map_err-eq-ok,
  ok-injective, le→leb, Bool-cases, inl, inr, ◌==◌, ==_iff, decode_rest-eq-ok,
}
use bluesdp.Nom.{Nom, IsLawful}
use bluesdp.Codec.Element.{
  DataElement, Elements, unsigned_int, uuid16, sequence, unknown, nil, cons, data_element, fuel_for,
}
use bluesdp.Codec.Element.Grammar.{Encodes}
use bluesdp.Codec.Element.Total.{data_element-eq-ok_iff}
use bluesdp.Codec.Response.{
  AttributeList, elements_len, attribute, attribute_pairs, attribute_list, record_attributes,
  collect_records, attribute_lists_of, decode_attribute_lists,
}

-- The elements are attribute IDs of 16 bits, each with its value behind it.
pub data IsPaired : Elements → AttributeList → Type 0 where
  done : IsPaired nil []
  pair :
      (id : ℕ) (value : DataElement) {es : Elements} {list : AttributeList}
      → id ≤ 65535
      → IsPaired es list
      → IsPaired (cons (unsigned_int id) (cons value es)) ((id, value) ∷ list)

-- An element that is no sequence has no attributes.
abbrev pub IsRecord : DataElement → AttributeList → Type 0
IsRecord (sequence es) list = IsPaired es list
IsRecord _ list = list ≡ []

abbrev pub IsRecords : Elements → List AttributeList → Type 0
IsRecords nil lists = lists ≡ []
IsRecords (cons e es) lists =
    (list : AttributeList) × (others : List AttributeList) × (lists ≡ list ∷ others)
    × IsRecord e list
    × IsRecords es others

abbrev pub IsResponse : DataElement → List AttributeList → Type 0
IsResponse (sequence records) lists = IsRecords records lists
IsResponse _ lists = lists ≡ []

module _ {E B : Type 0} (n : Nom E B) where
  attribute-eq-ok :
      (key value : DataElement) (p : ℕ × DataElement)
      → attribute n key value ≡ ok p
      → (key ≡ unsigned_int p.0) × (value ≡ p.1) × (p.0 ≤ 65535)
  unfolding attribute
  attribute-eq-ok (unsigned_int id) value p h = ground arith
  attribute-eq-ok (uuid16 _) value p h = cc
  attribute-eq-ok (sequence _) value p h = cc
  attribute-eq-ok unknown value p h = cc

  attribute-unsigned_int :
      (id : ℕ) (value : DataElement)
      → id ≤ 65535
      → attribute n (unsigned_int id) value ≡ ok (id, value)
  unfolding attribute
  attribute-unsigned_int id value h = rw (le→leb id 65535 h)

  attribute_pairs-IsPaired :
      {es : Elements} {list : AttributeList} → IsPaired es list → attribute_pairs n es ≡ ok list
  unfolding attribute_pairs
  attribute_pairs-IsPaired done = refl
  attribute_pairs-IsPaired (pair id value small others) =
      rw (attribute-unsigned_int id value small, attribute_pairs-IsPaired others)

  even_len : {es : Elements} {list : AttributeList} → IsPaired es list → elements_len es % 2 ≡ 0
  even_len done = refl
  even_len (pair id value small others) = omega (arith, even_len others)

  IsPaired-attribute_pairs :
      (es : Elements) (list : AttributeList)
      → elements_len es % 2 ≡ 0
      → attribute_pairs n es ≡ ok list
      → IsPaired es list
  unfolding attribute_pairs
  IsPaired-attribute_pairs nil list even h = rw (← ok-injective h) done
  IsPaired-attribute_pairs (cons key nil) list even h = absurd (omega arith)
  IsPaired-attribute_pairs (cons key (cons value es)) list even h =
      let (p, first, e₁) = >>=-eq-ok (attribute n key value) _ h in
      let (pairs, others, e₂) = >>=-eq-ok (attribute_pairs n es) _ e₁ in
      let (is_id, is_value, small) = attribute-eq-ok key value p first in
      let rest = IsPaired-attribute_pairs es pairs (omega arith) others in
      rw (← ok-injective e₂, is_id, is_value) (pair p.0 p.1 small rest)

  -- A record is decoded exactly when its elements pair up, to those pairs.
  pub attribute_list-eq-ok_iff :
      (es : Elements) (list : AttributeList) → (attribute_list n es ≡ ok list) ↔ IsPaired es list
  unfolding attribute_list
  attribute_list-eq-ok_iff es list = (
    λ h. elim (Bool-cases (elements_len es % 2 == 0)) [
      | inl even ↦
          IsPaired-attribute_pairs es list ((==_iff (elements_len es % 2) 0).0 even) (rw even at h)
      | inr odd ↦ let refused = rw odd at h in cc
    ],
    λ p. rw (even_len p) (attribute_pairs-IsPaired p),
  )

  record_attributes-eq-ok_iff :
      (e : DataElement) (list : AttributeList) → (record_attributes n e ≡ ok list) ↔ IsRecord e list
  unfolding record_attributes
  record_attributes-eq-ok_iff (sequence es) list = attribute_list-eq-ok_iff es list
  record_attributes-eq-ok_iff (unsigned_int _) list = (λ h. cc, λ h. cc)
  record_attributes-eq-ok_iff (uuid16 _) list = (λ h. cc, λ h. cc)
  record_attributes-eq-ok_iff unknown list = (λ h. cc, λ h. cc)

  collect_records-eq-ok_iff :
      (es : Elements) (lists : List AttributeList)
      → (collect_records n es ≡ ok lists) ↔ IsRecords es lists
  unfolding collect_records
  collect_records-eq-ok_iff nil lists = (λ h. cc, λ h. cc)
  collect_records-eq-ok_iff (cons e es) lists = (
    λ h.
        let (list, first, e₁) = >>=-eq-ok (record_attributes n e) _ h in
        let (others, rest, e₂) = >>=-eq-ok (collect_records n es) _ e₁ in
        (
          list,
          others,
          sym (ok-injective e₂),
          (record_attributes-eq-ok_iff e list).0 first,
          (collect_records-eq-ok_iff es others).0 rest,
        ),
    λ (list, others, whole, first, rest). rw (
      whole,
      (record_attributes-eq-ok_iff e list).1 first,
      (collect_records-eq-ok_iff es others).1 rest,
    ),
  )

  attribute_lists_of-eq-ok_iff :
      (bytes : List ℕ) (e : DataElement) (lists : List AttributeList)
      → (attribute_lists_of n bytes e ≡ ok lists) ↔ IsResponse e lists
  unfolding attribute_lists_of
  attribute_lists_of-eq-ok_iff bytes (sequence records) lists = (
    λ h.
        (collect_records-eq-ok_iff records lists).0 (map_err-eq-ok _ (collect_records n records) h),
    λ p. rw ((collect_records-eq-ok_iff records lists).1 p),
  )
  attribute_lists_of-eq-ok_iff bytes (unsigned_int _) lists = (λ h. cc, λ h. cc)
  attribute_lists_of-eq-ok_iff bytes (uuid16 _) lists = (λ h. cc, λ h. cc)
  attribute_lists_of-eq-ok_iff bytes unknown lists = (λ h. cc, λ h. cc)

module _ {E B : Type 0} (n : Nom E B) (lawful : IsLawful n) where
  -- The attribute bytes decode exactly when bytes at their front encode an element that is a
  -- response: the lists of the records in order if it is a sequence, none if it is not.
  pub decode_attribute_lists-eq-ok_iff :
      (bytes rest : List ℕ) (lists : List AttributeList)
      → (decode_attribute_lists n bytes ≡ ok (rest, lists)) ↔ (
          (outer : DataElement) × (front : List ℕ) × (bytes ≡ front ++ rest)
          × Encodes front outer
          × IsResponse outer lists)
  unfolding decode_attribute_lists
  decode_attribute_lists-eq-ok_iff bytes rest lists = (
    λ h.
        let (outer, read, value) =
          decode_rest-eq-ok (data_element n (fuel_for bytes) bytes) (attribute_lists_of n bytes)
            h in
        let (front, whole, derived) = (data_element-eq-ok_iff n lawful bytes rest outer).0 read in
        (outer, front, whole, derived, (attribute_lists_of-eq-ok_iff n bytes outer lists).0 value),
    λ (outer, front, whole, derived, shaped). rw (
      (data_element-eq-ok_iff n lawful bytes rest outer).1 (front, whole, derived),
      (attribute_lists_of-eq-ok_iff n bytes outer lists).1 shaped,
    ),
  )
