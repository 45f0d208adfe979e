-- ===== src/Codec/Element.antt =====
-- src/codec/element.rs: data elements, nested through sequences.
pub mod Grammar
pub mod Header
pub mod Open
pub mod Value
pub mod Contents
pub mod Complete
pub mod Sound
pub mod Total
pub mod Wide
pub mod Typed
pub mod Equal
use bluesdp.Prelude.{
  ℕ, zero, suc, List, [], ◌∷◌, Result, ok, err, out_of_fuel, ◌>>=◌, ◌==◌, if◌then◌else◌, length,
  ◌&&◌, ◌+◌, ◌*◌,
}
use bluesdp.Nom.{Nom, IResult}
use bluesdp.Codec.Descriptor.{
  ElementSize, fixed, var_len_8, var_len_16, var_len_32, size_eq, Descriptor, descriptor,
}

abbrev pub uint_type : ℕ
uint_type = 1

abbrev pub uuid_type : ℕ
uuid_type = 3

abbrev pub sequence_type : ℕ
sequence_type = 6

-- `Elements` is `Vec<DataElement>`.
mutual
  pub data DataElement : Type 0 where
    unsigned_int : ℕ → DataElement
    uuid16 : ℕ → DataElement
    sequence : Elements → DataElement
    unknown : DataElement

  pub data Elements : Type 0 where
    nil : Elements
    cons : DataElement → Elements → Elements

-- `Vec::push`
unfoldable pub push : Elements → DataElement → Elements
push nil e = cons e nil
push (cons x xs) e = cons x (push xs e)

-- Enough fuel for any element at the front of the input.
abbrev pub fuel_for : List ℕ → ℕ
fuel_for input = 2 * length input + 1

module _ {E B : Type 0} (n : Nom E B) where
  unfoldable pub reject : List ℕ → E
  reject input = n.verify input

  unfoldable pub payload_len : List ℕ → ElementSize → IResult E ℕ
  payload_len input (fixed w) = ok (input, w)
  payload_len input var_len_8 = n.be_u8 input
  payload_len input var_len_16 = n.be_u16 input
  payload_len input var_len_32 = n.be_u32 input

  unfoldable pub uint_value : List ℕ → IResult E ℕ
  unfolding reject
  uint_value body =
      if length body == 1
      then n.be_u8 body
      else if length body == 2
      then n.be_u16 body
      else if length body == 4
      then n.be_u32 body
      else err (reject body)

  unfoldable pub uuid16_value : List ℕ → IResult E ℕ
  unfolding reject
  uuid16_value body = if length body == 2 then n.be_u16 body else err (reject body)

  -- The `match` of `data_element` on the type, over the decoder of a sequence's contents.
  unfoldable pub element_value :
      (List ℕ → IResult E Elements) → Descriptor → List ℕ → Result E DataElement
  unfolding uint_value uuid16_value
  element_value contents desc body =
      if desc.element_type == uint_type
      then (do (_, value) ← uint_value body; ok (unsigned_int value))
      else if desc.element_type == uuid_type && size_eq desc.size (fixed 2)
      then (do (_, value) ← uuid16_value body; ok (uuid16 value))
      else if desc.element_type == sequence_type
      then (do (_, elements) ← contents body; ok (sequence elements))
      else ok unknown

  -- Each call takes a unit of fuel. `sequence_loop` is the `while` of `sequence_contents`.
  unfoldable mutual
    unfolding payload_len element_value

    pub data_element : ℕ → List ℕ → IResult E DataElement
    data_element zero input = out_of_fuel
    data_element (suc fuel) input = do
      (after_descriptor, desc) ← descriptor n input
      (after_len, len) ← payload_len after_descriptor desc.size
      (rest, body) ← n.take len after_len
      element ← element_value (λ bytes. sequence_loop fuel bytes nil) desc body
      ok (rest, element)

    pub sequence_loop : ℕ → List ℕ → Elements → IResult E Elements
    sequence_loop zero remaining elements = out_of_fuel
    sequence_loop (suc fuel) [] elements = ok ([], elements)
    sequence_loop (suc fuel) (b ∷ bytes) elements = do
      (rest, element) ← data_element fuel (b ∷ bytes)
      sequence_loop fuel rest (push elements element)

  unfoldable pub sequence_contents : ℕ → List ℕ → IResult E Elements
  unfolding sequence_loop
  sequence_contents fuel body = sequence_loop fuel body nil
