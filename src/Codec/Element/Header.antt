-- ===== src/Codec/Element/Header.antt =====
-- `descriptor` and `payload_len` against the headers of the grammar.
use bluesdp.Prelude.{
  ℕ, zero, suc, ◌<◌, ◌≡◌, ◌≢◌, refl, List, [], ◌∷◌, ◌++◌, arith, ok, sym, ◌∙◌, false, true,
  lt→leb_false, out_of_fuel, length, leb,
}
use bluesdp.Nom.{Nom, IsLawful}
use bluesdp.Nom.Split.{read_uint, read_uint-append, read_uint-eq-ok, read_uint-ne-out_of_fuel}
use bluesdp.Codec.Descriptor.{ElementSize, fixed, var_len_8, var_len_16, var_len_32, resolve_size}
use bluesdp.Codec.Element.{payload_len}
use bluesdp.Codec.Element.Grammar.{length_bytes, width}

resolve_size_fixed : (t i : ℕ) (field : List ℕ) → i < 5 → resolve_size t i ≡ fixed (width t i field)
unfolding resolve_size
resolve_size_fixed t zero field h = ground arith
resolve_size_fixed t (suc zero) field h = ground arith
resolve_size_fixed t (suc (suc zero)) field h = ground arith
resolve_size_fixed t (suc (suc (suc zero))) field h = ground arith
resolve_size_fixed t (suc (suc (suc (suc zero)))) field h = ground arith
resolve_size_fixed t (suc (suc (suc (suc (suc i))))) field h = absurd (omega arith)

module _ {E B : Type 0} (n : Nom E B) (lawful : IsLawful n) where
  open lawful use {be_u8_lem, be_u16_lem, be_u32_lem}

  payload_len_fixed :
      (t i : ℕ) (field input : List ℕ)
      → i < 5
      → payload_len n input (resolve_size t i) ≡ ok (input, width t i field)
  unfolding payload_len
  payload_len_fixed t i field input h = rw (resolve_size_fixed t i field h)

  pub payload_len-append :
      (t i : ℕ) (field rest : List ℕ)
      → i < 8
      → length field ≡ length_bytes i
      → payload_len n (field ++ rest) (resolve_size t i) ≡ ok (rest, width t i field)
  unfolding payload_len resolve_size
  payload_len-append t (suc (suc (suc (suc (suc zero))))) field rest h size =
      rw (be_u8_lem, read_uint-append n.eof 1 field rest size)
  payload_len-append t (suc (suc (suc (suc (suc (suc zero)))))) field rest h size =
      rw (be_u16_lem, read_uint-append n.eof 2 field rest size)
  payload_len-append t (suc (suc (suc (suc (suc (suc (suc zero))))))) field rest h size =
      rw (be_u32_lem, read_uint-append n.eof 4 field rest size)
  payload_len-append t (suc (suc (suc (suc (suc (suc (suc (suc i)))))))) field rest h size =
      absurd (omega arith)
  payload_len-append t zero [] rest h size = payload_len_fixed t 0 [] rest (omega arith)
  payload_len-append t (suc zero) [] rest h size = payload_len_fixed t 1 [] rest (omega arith)
  payload_len-append t (suc (suc zero)) [] rest h size = payload_len_fixed t 2 [] rest (omega arith)
  payload_len-append t (suc (suc (suc zero))) [] rest h size =
      payload_len_fixed t 3 [] rest (omega arith)
  payload_len-append t (suc (suc (suc (suc zero)))) [] rest h size =
      payload_len_fixed t 4 [] rest (omega arith)
  payload_len-append t _ (b ∷ field) rest h size = absurd (omega arith)

  -- What `payload_len` takes off its input to learn that the payload has `len` bytes.
  abbrev LengthField : ℕ → ℕ → List ℕ → List ℕ → ℕ → Type 0
  LengthField t i input rest len =
      (field : List ℕ) × (input ≡ field ++ rest)
      × (length field ≡ length_bytes i)
      × (len ≡ width t i field)

  fixed-LengthField :
      (t i : ℕ) (input rest : List ℕ) (len : ℕ)
      → i < 5
      → payload_len n input (resolve_size t i) ≡ ok (rest, len)
      → LengthField t i input rest len
  fixed-LengthField t i input rest len h e =
      let computed = payload_len_fixed t i [] input h in
      let short : leb 5 i ≡ false = lt→leb_false 5 i h in
      ([], cc computed, rw short refl, cc computed)

  read-LengthField :
      (t i k : ℕ) (input rest : List ℕ) (len : ℕ)
      → leb 5 i ≡ true
      → length_bytes i ≡ k
      → read_uint n.eof k input ≡ ok (rest, len)
      → LengthField t i input rest len
  read-LengthField t i k input rest len long bytes e =
      let (field, whole, size, value) = read_uint-eq-ok n.eof k input rest len e in
      (field, whole, size ∙ sym bytes, rw long (sym value))

  pub payload_len-eq-ok :
      (t i : ℕ) (input rest : List ℕ) (len : ℕ)
      → i < 8
      → payload_len n input (resolve_size t i) ≡ ok (rest, len)
      → LengthField t i input rest len
  unfolding payload_len resolve_size
  payload_len-eq-ok t (suc (suc (suc (suc (suc zero))))) input rest len h e =
      read-LengthField t 5 1 input rest len refl refl (rw be_u8_lem at e)
  payload_len-eq-ok t (suc (suc (suc (suc (suc (suc zero)))))) input rest len h e =
      read-LengthField t 6 2 input rest len refl refl (rw be_u16_lem at e)
  payload_len-eq-ok t (suc (suc (suc (suc (suc (suc (suc zero))))))) input rest len h e =
      read-LengthField t 7 4 input rest len refl refl (rw be_u32_lem at e)
  payload_len-eq-ok t (suc (suc (suc (suc (suc (suc (suc (suc i)))))))) input rest len h e =
      absurd (omega arith)
  payload_len-eq-ok t i input rest len h e = fixed-LengthField t i input rest len (omega arith) e

  pub payload_len-ne-out_of_fuel :
      (input : List ℕ) (size : ElementSize) → payload_len n input size ≢ out_of_fuel
  unfolding payload_len
  payload_len-ne-out_of_fuel input (fixed w) = λ e. cc
  payload_len-ne-out_of_fuel input var_len_8 = rw be_u8_lem (read_uint-ne-out_of_fuel n.eof 1 input)
  payload_len-ne-out_of_fuel input var_len_16 =
      rw be_u16_lem (read_uint-ne-out_of_fuel n.eof 2 input)
  payload_len-ne-out_of_fuel input var_len_32 =
      rw be_u32_lem (read_uint-ne-out_of_fuel n.eof 4 input)
