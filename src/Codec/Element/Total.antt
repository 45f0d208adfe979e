-- ===== src/Codec/Element/Total.antt =====
-- `data_element` ends on every input, and decides the grammar.
use bluesdp.Prelude.{
  ℕ, zero, suc, ◌*◌, ◌≤◌, ◌<◌, ◌≡◌, ◌≢◌, ◌↔◌, refl, List, [], ◌∷◌, ◌++◌, arith, ok, ap, length,
  length-append, out_of_fuel, >>=-ne-out_of_fuel,
}
use bluesdp.Nom.{Nom, IsLawful, IResult}
use bluesdp.Nom.Split.{read_uint-ne-out_of_fuel}
use bluesdp.Codec.Descriptor.{Descriptor}
use bluesdp.Codec.Element.{
  DataElement, Elements, nil, push, data_element, sequence_loop, element_value, uint_value,
  uuid16_value, fuel_for,
}
use bluesdp.Codec.Element.Grammar.{Encodes, Encodes-pos, length-header}
use bluesdp.Codec.Element.Complete.{data_element-Encodes_onto}
use bluesdp.Codec.Element.Sound.{data_element-Decoded}
use bluesdp.Codec.Element.Open.{
  contents_with, open_element, data_element-open, open_element-eq-ok, open_element-ne-out_of_fuel,
}

pub rest_shorter :
    (rest : List ℕ) {bytes input : List ℕ} {e : DataElement}
    → input ≡ bytes ++ rest
    → Encodes bytes e
    → length rest < length input
rest_shorter rest {bytes} whole d =
    omega (arith, ap length whole, length-append bytes rest, Encodes-pos d)

module _ {E B : Type 0} (n : Nom E B) (lawful : IsLawful n) where
  uint_value-ne-out_of_fuel : (body : List ℕ) → uint_value n body ≢ out_of_fuel
  unfolding uint_value
  uint_value-ne-out_of_fuel body e = ground (
    arith,
    lawful.be_u8_lem body,
    lawful.be_u16_lem body,
    lawful.be_u32_lem body,
    read_uint-ne-out_of_fuel n.eof 1 body,
    read_uint-ne-out_of_fuel n.eof 2 body,
    read_uint-ne-out_of_fuel n.eof 4 body,
  )

  uuid16_value-ne-out_of_fuel : (body : List ℕ) → uuid16_value n body ≢ out_of_fuel
  unfolding uuid16_value
  uuid16_value-ne-out_of_fuel body e =
      ground (arith, lawful.be_u16_lem body, read_uint-ne-out_of_fuel n.eof 2 body)

  element_value-ne-out_of_fuel :
      (contents : List ℕ → IResult E Elements) (desc : Descriptor) (body : List ℕ)
      → contents body ≢ out_of_fuel
      → element_value n contents desc body ≢ out_of_fuel
  unfolding element_value
  element_value-ne-out_of_fuel contents desc body h e =
      ground (arith, uint_value-ne-out_of_fuel body, uuid16_value-ne-out_of_fuel body)

  body_fits :
      (fuel : ℕ) (input rest : List ℕ) (desc : Descriptor) (body : List ℕ)
      → 2 * length input ≤ suc fuel
      → open_element n input ≡ ok (rest, (desc, body))
      → 2 * length body < fuel
  body_fits fuel input rest desc body enough opening =
      let o = open_element-eq-ok n lawful input rest desc body opening in
      omega (
        arith,
        length-header body o.valid refl,
        ap length o.whole,
        length-append (o.header ++ body) rest,
      )

  mutual
    unfolding sequence_loop

    data_element-ne-out_of_fuel :
        (fuel : ℕ) (input : List ℕ)
        → 0 < fuel
        → 2 * length input ≤ fuel
        → data_element n fuel input ≢ out_of_fuel
    data_element-ne-out_of_fuel zero input pos enough = absurd (omega arith)
    data_element-ne-out_of_fuel (suc f) input pos enough = rw (data_element-open n f input) (
        >>=-ne-out_of_fuel (open_element n input) _ (open_element-ne-out_of_fuel n lawful input)
          λ (rest, (desc, body)) opening.
            >>=-ne-out_of_fuel (element_value n (contents_with n f) desc body) _
              (element_value-ne-out_of_fuel (contents_with n f) desc body (
                sequence_loop-ne-out_of_fuel f body nil
                  (body_fits f input rest desc body enough opening)))
              λ _ _ e. cc)

    sequence_loop-ne-out_of_fuel :
        (fuel : ℕ) (input : List ℕ) (acc : Elements)
        → 2 * length input < fuel
        → sequence_loop n fuel input acc ≢ out_of_fuel
    sequence_loop-ne-out_of_fuel zero input acc enough = absurd (omega arith)
    sequence_loop-ne-out_of_fuel (suc f) [] acc enough = λ e. cc
    sequence_loop-ne-out_of_fuel (suc f) (b ∷ input) acc enough =
        >>=-ne-out_of_fuel (data_element n f (b ∷ input)) _
          (data_element-ne-out_of_fuel f (b ∷ input) (omega arith) (omega arith))
          λ (rest, e) r.
            let (front, cut, derived) = data_element-Decoded n lawful f (b ∷ input) rest e r in
            sequence_loop-ne-out_of_fuel f rest (push acc e)
              (omega (arith, rest_shorter rest cut derived))

  -- The fuel that the model gives to `data_element` suffices for every input.
  pub data_element-total : (input : List ℕ) → data_element n (fuel_for input) input ≢ out_of_fuel
  data_element-total input =
      data_element-ne-out_of_fuel (fuel_for input) input (omega arith) (omega arith)

  -- `data_element` succeeds on an input exactly when bytes at its front encode an element; it
  -- returns that element and what follows those bytes.
  pub data_element-eq-ok_iff :
      (input rest : List ℕ) (e : DataElement)
      → (data_element n (fuel_for input) input ≡ ok (rest, e))
        ↔ ((bytes : List ℕ) × (input ≡ bytes ++ rest) × Encodes bytes e)
  data_element-eq-ok_iff input rest e = (
    data_element-Decoded n lawful (fuel_for input) input rest e,
    λ (bytes, whole, derived). rw whole (
        data_element-Encodes_onto n lawful derived (fuel_for (bytes ++ rest)) rest
          (omega (arith, length-append bytes rest))),
  )
