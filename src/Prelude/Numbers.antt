-- ===== src/Prelude/Numbers.antt =====
-- Bytes and big-endian numbers.
use Prim.Native.Nat.{ℕ, ◌+◌, ◌*◌, ◌/◌, ◌%◌, ◌^◌, ◌<◌}
use mathlib.Core.Path.{◌≡◌}
use mathlib.Core.List.{List, [], ◌∷◌}
use native.Mathlib.Omega.{arith}

-- An element of a byte slice is a number; this is the range that the program's `u8` has.
abbrev pub IsByte : ℕ → Type 0
IsByte b = b < 256

abbrev pub IsU16 : ℕ → Type 0
IsU16 n = n < 2 ^ 16

abbrev pub IsU32 : ℕ → Type 0
IsU32 n = n < 2 ^ 32

-- The number whose big-endian digits are the bytes.
abbrev pub be_value_from : ℕ → List ℕ → ℕ
be_value_from acc [] = acc
be_value_from acc (b ∷ bs) = be_value_from (acc * 256 + b) bs

abbrev pub be_value : List ℕ → ℕ
be_value = be_value_from 0

-- The two and the four big-endian bytes of a number.
abbrev pub be_bytes_16 : ℕ → List ℕ
be_bytes_16 x = (x / 256 % 256) ∷ (x % 256) ∷ []

abbrev pub be_bytes_32 : ℕ → List ℕ
be_bytes_32 x = (x / 2 ^ 24 % 256) ∷ (x / 2 ^ 16 % 256) ∷ (x / 256 % 256) ∷ (x % 256) ∷ []

pub be_value_8 : (a : ℕ) → be_value (a ∷ []) ≡ a
be_value_8 a = omega arith

pub be_value_16 : (a b : ℕ) → be_value (a ∷ b ∷ []) ≡ a * 256 + b
be_value_16 a b = omega arith

pub be_value-be_bytes_16 : (x : ℕ) → IsU16 x → be_value (be_bytes_16 x) ≡ x
be_value-be_bytes_16 x h = omega arith

pub be_value-be_bytes_32 : (x : ℕ) → IsU32 x → be_value (be_bytes_32 x) ≡ x
be_value-be_bytes_32 x h = omega arith
