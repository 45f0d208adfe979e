-- ===== src/UnitTests/Hex.antt =====
-- `hex_decode`, which the tests in src/codec and src/transport repeat, on the ASCII texts of the
-- fixtures: there a character is a byte, and a text is the list of their codes.
use Prim.Native.Char.{code}
use bluesdp.Prelude.{
  ℕ, ◌+◌, ◌-◌, ◌*◌, List, [], ◌∷◌, ◌++◌, Bool, Option, none, some, ◌==◌, ◌||◌, ◌&&◌, leb, ltb,
  if◌then◌else◌,
}
use bluesdp.Prelude.Text.{String}
pub mod RoundTrip

abbrev pub codes : String → List ℕ
codes (String.◌∷◌ c text) = code c ∷ codes text
codes _ = []

-- `char::is_whitespace`
abbrev pub is_whitespace : ℕ → Bool
is_whitespace c = (leb 9 c && leb c 13) || c == 32

-- `str::trim`
unfoldable pub trim_start : List ℕ → List ℕ
trim_start [] = []
trim_start (c ∷ cs) = let rest = trim_start cs in if is_whitespace c then rest else c ∷ cs

unfoldable pub trim_end : List ℕ → List ℕ
trim_end [] = []
trim_end (c ∷ cs) = elim (trim_end cs) [
  | [] ↦ if is_whitespace c then [] else c ∷ []
  | d ∷ ds ↦ c ∷ d ∷ ds
]

unfoldable pub trim : List ℕ → List ℕ
unfolding trim_start trim_end
trim text = trim_end (trim_start text)

-- `char::to_digit(16)`
unfoldable pub to_digit : ℕ → Option ℕ
to_digit c =
    if leb 48 c && leb c 57
    then some (c - 48)
    else if leb 97 c && leb c 102
    then some (c - 87)
    else if leb 65 c && leb c 70
    then some (c - 55)
    else none

-- `u8::from_str_radix(text, 16)`: a plus sign may stand in front, and there has to be a digit.
unfoldable pub from_digits : ℕ → List ℕ → Option ℕ
unfolding to_digit
from_digits acc [] = some acc
from_digits acc (c ∷ cs) = elim (to_digit c) [
  | none ↦ none
  | some d ↦
      let rest = from_digits (acc * 16 + d) cs in if leb (acc * 16 + d) 255 then rest else none
]

unfoldable pub from_str_radix : List ℕ → Option ℕ
unfolding from_digits
from_str_radix [] = none
from_str_radix (c ∷ []) = from_digits 0 (c ∷ [])
from_str_radix (c ∷ d ∷ cs) = if c == 43 then from_digits 0 (d ∷ cs) else from_digits 0 (c ∷ d ∷ cs)

abbrev pub unwrap_or : {A : Type 0} → A → Option A → A
unwrap_or default none = default
unwrap_or default (some a) = a

-- The bytes at the even indices; behind the last whole pair stands "00".
unfoldable pub decode_pairs : List ℕ → List ℕ
unfolding from_str_radix
decode_pairs [] = []
decode_pairs (a ∷ []) = unwrap_or 0 (from_str_radix (48 ∷ 48 ∷ [])) ∷ []
decode_pairs (a ∷ b ∷ cs) = unwrap_or 0 (from_str_radix (a ∷ b ∷ [])) ∷ decode_pairs cs

unfoldable pub hex_decode : List ℕ → List ℕ
unfolding trim decode_pairs
hex_decode text = decode_pairs (trim text)

-- `include_str!` of a fixture, which is one line.
abbrev pub include_str : String → List ℕ
include_str text = codes text ++ 10 ∷ []
