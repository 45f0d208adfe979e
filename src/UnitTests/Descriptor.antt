-- ===== src/UnitTests/Descriptor.antt =====
-- The tests of src/codec/descriptor.rs.
use bluesdp.Prelude.{List, [], ◌∷◌, ◌>>=◌, ℕ}
use bluesdp.Prelude.Text.{String}
use bluesdp.Prelude.Equality.{nat_eq, vec_eq}
use bluesdp.Nom.{Nom}
use bluesdp.Codec.Descriptor.{Descriptor, fixed, var_len_8, var_len_16, var_len_32, descriptor}
use bluesdp.Codec.Descriptor.Equal.{element_size_eq}
use bluesdp.UnitTests.Outcome.{Outcome, assert, assert_eq, is_err, or_return}

module _ {E B : Type 0} (n : Nom E B) (to_string : E → String) where
  abbrev pub parse : List ℕ → Outcome (List ℕ × Descriptor)
  parse input = or_return "descriptor parse failed: " to_string (descriptor n input)

  abbrev pub nil_has_fixed_zero_size : Outcome (Unit {0})
  nil_has_fixed_zero_size = do
    (rest, desc) ← parse (0x00 ∷ [])
    _ ← assert_eq rest []
    _ ← assert_eq desc.element_type 0
    assert_eq desc.size (fixed 0)

  abbrev pub uint_size_index_0_is_one_byte : Outcome (Unit {0})
  uint_size_index_0_is_one_byte = do
    (_, desc) ← parse (0x08 ∷ [])
    _ ← assert_eq desc.element_type 1
    assert_eq desc.size (fixed 1)

  abbrev pub uint_size_index_2_is_four_bytes : Outcome (Unit {0})
  uint_size_index_2_is_four_bytes = do
    (_, desc) ← parse (0x0a ∷ [])
    _ ← assert_eq desc.element_type 1
    assert_eq desc.size (fixed 4)

  abbrev pub uuid_size_index_1_is_two_bytes : Outcome (Unit {0})
  uuid_size_index_1_is_two_bytes = do
    (_, desc) ← parse (0x19 ∷ [])
    _ ← assert_eq desc.element_type 3
    assert_eq desc.size (fixed 2)

  abbrev pub uuid_size_index_4_is_sixteen_bytes : Outcome (Unit {0})
  uuid_size_index_4_is_sixteen_bytes = do
    (_, desc) ← parse (0x1c ∷ [])
    _ ← assert_eq desc.element_type 3
    assert_eq desc.size (fixed 16)

  abbrev pub sequence_size_index_5_reads_one_byte_length : Outcome (Unit {0})
  sequence_size_index_5_reads_one_byte_length = do
    (rest, desc) ← parse (0x35 ∷ 0x03 ∷ [])
    _ ← assert_eq desc.element_type 6
    _ ← assert_eq desc.size var_len_8
    assert_eq rest (0x03 ∷ [])

  abbrev pub sequence_size_index_6_reads_two_byte_length : Outcome (Unit {0})
  sequence_size_index_6_reads_two_byte_length = do
    (rest, desc) ← parse (0x36 ∷ 0x00 ∷ 0x10 ∷ [])
    _ ← assert_eq desc.element_type 6
    _ ← assert_eq desc.size var_len_16
    assert_eq rest (0x00 ∷ 0x10 ∷ [])

  abbrev pub text_string_size_index_7_reads_four_byte_length : Outcome (Unit {0})
  text_string_size_index_7_reads_four_byte_length = do
    (rest, desc) ← parse (0x27 ∷ 0x00 ∷ 0x00 ∷ 0x01 ∷ 0x00 ∷ [])
    _ ← assert_eq desc.element_type 4
    _ ← assert_eq desc.size var_len_32
    assert_eq rest (0x00 ∷ 0x00 ∷ 0x01 ∷ 0x00 ∷ [])

  abbrev pub empty_input_is_an_error : Outcome (Unit {0})
  empty_input_is_an_error = do let result = descriptor n []; assert (is_err result)
