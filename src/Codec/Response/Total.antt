-- ===== src/Codec/Response/Total.antt =====
-- `decode_attribute_lists` ends on every input.
use bluesdp.Prelude.{
  ℕ, ◌%◌, ◌≢◌, List, arith, out_of_fuel, >>=-ne-out_of_fuel, Bool-cases, inl, inr, ◌==◌,
}
use bluesdp.Nom.{Nom, IsLawful}
use bluesdp.Codec.Element.{
  DataElement, Elements, unsigned_int, uuid16, sequence, unknown, nil, cons, data_element, fuel_for,
}
use bluesdp.Codec.Element.Total.{data_element-total}
use bluesdp.Codec.Response.{
  elements_len, attribute, attribute_pairs, attribute_list, record_attributes, collect_records,
  attribute_lists_of, decode_attribute_lists,
}

module _ {E B : Type 0} (n : Nom E B) where
  attribute-ne-out_of_fuel : (key value : DataElement) → attribute n key value ≢ out_of_fuel
  unfolding attribute
  attribute-ne-out_of_fuel (unsigned_int id) value h = ground arith
  attribute-ne-out_of_fuel (uuid16 _) value h = cc
  attribute-ne-out_of_fuel (sequence _) value h = cc
  attribute-ne-out_of_fuel unknown value h = cc

  attribute_pairs-ne-out_of_fuel : (es : Elements) → attribute_pairs n es ≢ out_of_fuel
  unfolding attribute_pairs
  attribute_pairs-ne-out_of_fuel nil = λ h. cc
  attribute_pairs-ne-out_of_fuel (cons key nil) = λ h. cc
  attribute_pairs-ne-out_of_fuel (cons key (cons value es)) =
      >>=-ne-out_of_fuel (attribute n key value) _ (attribute-ne-out_of_fuel key value) λ _ _.
        >>=-ne-out_of_fuel (attribute_pairs n es) _ (attribute_pairs-ne-out_of_fuel es) λ _ _ h. cc

  attribute_list-ne-out_of_fuel : (es : Elements) → attribute_list n es ≢ out_of_fuel
  unfolding attribute_list
  attribute_list-ne-out_of_fuel es = elim (Bool-cases (elements_len es % 2 == 0)) [
    | inl even ↦ rw even (attribute_pairs-ne-out_of_fuel es)
    | inr odd ↦ rw odd (λ h. cc)
  ]

  record_attributes-ne-out_of_fuel : (e : DataElement) → record_attributes n e ≢ out_of_fuel
  unfolding record_attributes
  record_attributes-ne-out_of_fuel (sequence es) = attribute_list-ne-out_of_fuel es
  record_attributes-ne-out_of_fuel (unsigned_int _) = λ h. cc
  record_attributes-ne-out_of_fuel (uuid16 _) = λ h. cc
  record_attributes-ne-out_of_fuel unknown = λ h. cc

  collect_records-ne-out_of_fuel : (es : Elements) → collect_records n es ≢ out_of_fuel
  unfolding collect_records
  collect_records-ne-out_of_fuel nil = λ h. cc
  collect_records-ne-out_of_fuel (cons e es) =
      >>=-ne-out_of_fuel (record_attributes n e) _ (record_attributes-ne-out_of_fuel e) λ _ _.
        >>=-ne-out_of_fuel (collect_records n es) _ (collect_records-ne-out_of_fuel es) λ _ _ h. cc

  attribute_lists_of-ne-out_of_fuel :
      (bytes : List ℕ) (e : DataElement) → attribute_lists_of n bytes e ≢ out_of_fuel
  unfolding attribute_lists_of
  attribute_lists_of-ne-out_of_fuel bytes (sequence es) h =
      ground (arith, collect_records-ne-out_of_fuel es)
  attribute_lists_of-ne-out_of_fuel bytes (unsigned_int _) h = cc
  attribute_lists_of-ne-out_of_fuel bytes (uuid16 _) h = cc
  attribute_lists_of-ne-out_of_fuel bytes unknown h = cc

module _ {E B : Type 0} (n : Nom E B) (lawful : IsLawful n) where
  -- On any attribute bytes the decoder ends, with lists or with an error.
  pub decode_attribute_lists-total : (bytes : List ℕ) → decode_attribute_lists n bytes ≢ out_of_fuel
  unfolding decode_attribute_lists
  decode_attribute_lists-total bytes =
      >>=-ne-out_of_fuel (data_element n (fuel_for bytes) bytes) _
        (data_element-total n lawful bytes)
        λ (_, outer) _.
          >>=-ne-out_of_fuel (attribute_lists_of n bytes outer) _
            (attribute_lists_of-ne-out_of_fuel n bytes outer) λ _ _ h. cc
