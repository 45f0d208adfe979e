-- ===== src/Nom.antt =====
-- What codec takes from the crate nom 8, as a parameter: its byte and bit parsers, and the laws
-- that its documentation states for them. The list holds the bytes not yet read.
pub mod Split
use bluesdp.Prelude.{ℕ, ◌+◌, ◌-◌, ◌/◌, ◌%◌, ◌^◌, ◌≤◌, ◌<◌, ◌≡◌, List, [], ◌∷◌}
use bluesdp.Prelude.{Result, ok, err, if◌then◌else◌, ◌==◌}
use bluesdp.Nom.Split.{split, read_uint}

-- `IResult<&[u8], A>`: what is left of the input stands first.
abbrev pub IResult {ℓ κ} : Type ℓ → Type κ → Type (ℓ ⊔ κ)
IResult E A = Result E (List ℕ × A)

-- A bit parser's input is a byte slice and the number of bits read of its first byte.
abbrev pub BitInput : Type 0
BitInput = List ℕ × ℕ

abbrev pub BitParser : Type 0 → Type 0 → Type 0
BitParser B A = BitInput → Result B (BitInput × A)

-- `E` is `nom::Err<Error<&[u8]>>`, and `B` the error of the bit parsers.
pub record Nom (E B : Type 0) : Type 0 where
  -- `Err::Error(Error::from_error_kind(input, kind))`, for the kinds `Eof` and `Verify`
  pub eof : List ℕ → E
  pub verify : List ℕ → E
  pub be_u8 : List ℕ → IResult E ℕ
  pub be_u16 : List ℕ → IResult E ℕ
  pub be_u32 : List ℕ → IResult E ℕ
  pub take : ℕ → List ℕ → IResult E (List ℕ)
  pub take_bits : ℕ → BitParser B ℕ
  pub pair : BitParser B ℕ → BitParser B ℕ → BitParser B (ℕ × ℕ)
  pub bits : BitParser B (ℕ × ℕ) → List ℕ → IResult E (ℕ × ℕ)
  pub bit_eof : BitInput → B
  -- `ErrorConvert`, which `bits` applies to an error
  pub convert : B → E

module _ {E B : Type 0} (n : Nom E B) where
  -- The complete parsers read their bytes, big-endian, or fail with `Eof` and read nothing. `bits`
  -- starts at the first bit of a byte, and when its parser ends between two bytes it goes on there.
  pub record IsLawful : Type 0 where
    pub be_u8_lem : (xs : List ℕ) → n.be_u8 xs ≡ read_uint n.eof 1 xs
    pub be_u16_lem : (xs : List ℕ) → n.be_u16 xs ≡ read_uint n.eof 2 xs
    pub be_u32_lem : (xs : List ℕ) → n.be_u32 xs ≡ read_uint n.eof 4 xs
    pub take_lem : (k : ℕ) (xs : List ℕ) → n.take k xs ≡ split n.eof k xs
    pub take_bits_nil : (k : ℕ) → 0 < k → n.take_bits k ([], 0) ≡ err (n.bit_eof ([], 0))
    pub take_bits_cons :
        (k o b : ℕ) (xs : List ℕ)
        → o + k ≤ 8
        → n.take_bits k (b ∷ xs, o)
          ≡ ok (if o + k == 8 then (xs, 0) else (b ∷ xs, o + k), b / 2 ^ (8 - (o + k)) % 2 ^ k)
    pub pair_ok :
        (p q : BitParser B ℕ) (i j k : BitInput) (a b : ℕ)
        → p i ≡ ok (j, a)
        → q j ≡ ok (k, b)
        → n.pair p q i ≡ ok (k, (a, b))
    pub pair_err : (p q : BitParser B ℕ) (i : BitInput) (e : B) → p i ≡ err e → n.pair p q i ≡ err e
    pub bits_ok :
        (p : BitParser B (ℕ × ℕ)) (xs ys : List ℕ) (v : ℕ × ℕ)
        → p (xs, 0) ≡ ok ((ys, 0), v)
        → n.bits p xs ≡ ok (ys, v)
    pub bits_err :
        (p : BitParser B (ℕ × ℕ)) (xs : List ℕ) (e : B)
        → p (xs, 0) ≡ err e
        → n.bits p xs ≡ err (n.convert e)
