-- ===== src/Codec/Descriptor/Laws.antt =====
-- What `descriptor` reads, from the laws of nom's bit parsers.
use bluesdp.Prelude.{ℕ, List, [], ◌∷◌, ◌≡◌, ok, err, ◌%◌, ◌/◌, arith}
use bluesdp.Nom.{Nom, IsLawful}
use bluesdp.Codec.Descriptor.{resolve_size, descriptor}

module _ {E B : Type 0} (n : Nom E B) (lawful : IsLawful n) where
  open lawful use {take_bits_nil, take_bits_cons, pair_ok, pair_err, bits_ok, bits_err}

  -- The upper five bits are the type, the lower three the size index.
  pub descriptor-cons :
      (b : ℕ) (rest : List ℕ)
      → descriptor n (b ∷ rest)
        ≡ ok (rest, record { element_type = b / 8 % 32; size = resolve_size (b / 8 % 32) (b % 8) })
  unfolding descriptor
  descriptor-cons b rest =
      let first = take_bits_cons 5 0 b rest (omega arith) in
      let second = take_bits_cons 3 5 b rest (omega arith) in
      let low : b / 1 % 8 ≡ b % 8 = omega arith in
      rw (bits_ok _ _ rest _ (pair_ok _ _ _ _ _ _ _ first second), low)

  pub descriptor-nil : descriptor n [] ≡ err (n.convert (n.bit_eof ([], 0)))
  unfolding descriptor
  descriptor-nil =
      rw (bits_err _ [] _ (pair_err _ (n.take_bits 3) _ _ (take_bits_nil 5 (omega arith))))
