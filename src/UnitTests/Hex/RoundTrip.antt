-- ===== src/UnitTests/Hex/RoundTrip.antt =====
-- `hex_decode` reads back what is written in hexadecimal digits.
use bluesdp.Prelude.{
  ℕ, ◌+◌, ◌*◌, ◌/◌, ◌%◌, ◌<◌, ◌≤◌, ◌≡◌, refl, ap, ◌∙◌, List, [], ◌∷◌, ◌++◌, arith, true, false,
  some, ◌==◌, All, IsByte, ltb, le→leb, if◌then◌else◌,
}
use bluesdp.UnitTests.Hex.{
  is_whitespace, trim_start, trim_end, trim, to_digit, from_digits, from_str_radix, decode_pairs,
  hex_decode,
}

-- The small digits.
abbrev pub hex_digit : ℕ → ℕ
hex_digit d = if ltb d 10 then d + 48 else d + 87

abbrev pub hex_encode : List ℕ → List ℕ
hex_encode [] = []
hex_encode (b ∷ bytes) = hex_digit (b / 16) ∷ hex_digit (b % 16) ∷ hex_encode bytes

abbrev pub IsSpace : ℕ → Type 0
IsSpace c = is_whitespace c ≡ true

abbrev IsDigit : ℕ → Type 0
IsDigit c = (48 ≤ c) × (c ≤ 102) × (is_whitespace c ≡ false)

hex_digit-IsDigit : (d : ℕ) → d < 16 → IsDigit (hex_digit d)
hex_digit-IsDigit d h = (ground arith, ground arith, ground arith)

hex_encode-IsDigit : (bytes : List ℕ) → All IsByte bytes → All IsDigit (hex_encode bytes)
hex_encode-IsDigit [] all = tt
hex_encode-IsDigit (b ∷ bytes) (byte, all) = (
  hex_digit-IsDigit (b / 16) (omega arith),
  (hex_digit-IsDigit (b % 16) (omega arith), hex_encode-IsDigit bytes all),
)

to_digit-hex_digit : (d : ℕ) → d < 16 → to_digit (hex_digit d) ≡ some d
unfolding to_digit
to_digit-hex_digit d h = ground arith

trim_start-spaces :
    (spaces text : List ℕ) → All IsSpace spaces → trim_start (spaces ++ text) ≡ trim_start text
unfolding trim_start
trim_start-spaces [] text all = refl
trim_start-spaces (c ∷ spaces) text (space, all) = rw space (trim_start-spaces spaces text all)

trim_start-all : (spaces : List ℕ) → All IsSpace spaces → trim_start spaces ≡ []
unfolding trim_start
trim_start-all [] all = refl
trim_start-all (c ∷ spaces) (space, all) = rw space (trim_start-all spaces all)

trim_end-all : (spaces : List ℕ) → All IsSpace spaces → trim_end spaces ≡ []
unfolding trim_end
trim_end-all [] all = refl
trim_end-all (c ∷ spaces) (space, all) = rw (trim_end-all spaces all, space)

trim_end-digits :
    (digits spaces : List ℕ)
    → All IsDigit digits
    → All IsSpace spaces
    → trim_end (digits ++ spaces) ≡ digits
unfolding trim_end
trim_end-digits [] spaces all white = trim_end-all spaces white
trim_end-digits (c ∷ []) spaces ((_, _, digit), all) white = rw (trim_end-all spaces white, digit)
trim_end-digits (c ∷ d ∷ digits) spaces (_, all) white =
    rw (trim_end-digits (d ∷ digits) spaces all white)

trim_start-digits :
    (digits spaces : List ℕ)
    → All IsDigit digits
    → All IsSpace spaces
    → trim_end (trim_start (digits ++ spaces)) ≡ digits
unfolding trim_start trim_end
trim_start-digits [] spaces all white = rw (trim_start-all spaces white)
trim_start-digits (c ∷ digits) spaces all white =
    rw all.0.2 (trim_end-digits (c ∷ digits) spaces all white)

trim_lem :
    (before digits after : List ℕ)
    → All IsSpace before
    → All IsDigit digits
    → All IsSpace after
    → trim (before ++ (digits ++ after)) ≡ digits
unfolding trim
trim_lem before digits after white all white' =
    rw (trim_start-spaces before (digits ++ after) white)
      (trim_start-digits digits after all white')

from_digits_step :
    (acc c d : ℕ) (cs : List ℕ)
    → to_digit c ≡ some d
    → acc * 16 + d ≤ 255
    → from_digits acc (c ∷ cs) ≡ from_digits (acc * 16 + d) cs
unfolding from_digits
from_digits_step acc c d cs digit small =
    rw (digit, le→leb (acc * 16 + d) 255 small, from_digits) refl

from_str_radix_digits :
    (x y p q : ℕ)
    → (x == 43) ≡ false
    → to_digit x ≡ some p
    → to_digit y ≡ some q
    → p < 16
    → q < 16
    → from_str_radix (x ∷ y ∷ []) ≡ some (p * 16 + q)
unfolding from_str_radix from_digits
from_str_radix_digits x y p q plain first second hp hq = rw plain (
    from_digits_step 0 x p (y ∷ []) first (omega arith)
    ∙ from_digits_step (0 * 16 + p) y q [] second (omega arith)
    ∙ ap some (omega arith))

from_str_radix-hex_digit :
    (b : ℕ) → IsByte b → from_str_radix (hex_digit (b / 16) ∷ hex_digit (b % 16) ∷ []) ≡ some b
from_str_radix-hex_digit b h =
    let high : b / 16 < 16 = omega arith in
    let low : b % 16 < 16 = omega arith in
    let plain : (hex_digit (b / 16) == 43) ≡ false = ground arith in
    from_str_radix_digits (hex_digit (b / 16)) (hex_digit (b % 16)) (b / 16) (b % 16) plain
      (to_digit-hex_digit (b / 16) high) (to_digit-hex_digit (b % 16) low) high low
    ∙ ap some (omega arith)

decode_pairs-hex_encode :
    (bytes : List ℕ) → All IsByte bytes → decode_pairs (hex_encode bytes) ≡ bytes
unfolding decode_pairs
decode_pairs-hex_encode [] all = refl
decode_pairs-hex_encode (b ∷ bytes) (byte, all) =
    rw (from_str_radix-hex_digit b byte, decode_pairs-hex_encode bytes all) refl

-- Bytes written in small hexadecimal digits, two for each, with any white space around them, are
-- what `hex_decode` reads.
pub hex_decode-hex_encode :
    (before bytes after : List ℕ)
    → All IsSpace before
    → All IsByte bytes
    → All IsSpace after
    → hex_decode (before ++ (hex_encode bytes ++ after)) ≡ bytes
unfolding hex_decode
hex_decode-hex_encode before bytes after white all white' =
    rw (trim_lem before (hex_encode bytes) after white (hex_encode-IsDigit bytes all) white')
      (decode_pairs-hex_encode bytes all)
