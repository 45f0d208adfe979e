-- ===== src/Tests/Hexadecimal.antt =====
-- The theorem on `hex_decode`, at a concrete text.
use bluesdp.Prelude.{◌≡◌, refl, [], ◌∷◌, ◌++◌, arith}
use bluesdp.UnitTests.Hex.{hex_decode}
use bluesdp.UnitTests.Hex.RoundTrip.{hex_encode, hex_decode-hex_encode}

-- A line of two bytes.
hex_decode-hex_encode_example :
    hex_decode ([] ++ (hex_encode (0x2f ∷ 0xa0 ∷ []) ++ 10 ∷ [])) ≡ 0x2f ∷ 0xa0 ∷ []
hex_decode-hex_encode_example =
    hex_decode-hex_encode [] (0x2f ∷ 0xa0 ∷ []) (10 ∷ []) tt (omega arith, (omega arith, tt))
      (refl, tt)
