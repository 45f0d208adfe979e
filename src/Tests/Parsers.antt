-- ===== src/Tests/Parsers.antt =====
-- An instance of what codec takes from nom and bytes.
use bluesdp.Prelude.{
  ℕ, ◌+◌, ◌-◌, ◌/◌, ◌%◌, ◌^◌, ◌<◌, ◌≤◌, ◌≡◌, refl, List, [], ◌∷◌, ◌++◌, ok, err, ◌>>=◌,
  if◌then◌else◌, ◌==◌, ltb, false, length, drop, arith, be_bytes_16, be_bytes_32,
}
use bluesdp.Nom.{Nom, IsLawful, BitInput, BitParser, IResult}
use bluesdp.Nom.Split.{split, read_uint}
use bluesdp.Buf.{Buf, IsAppending}

pub data Failure : Type 0 where
  eof verify : List ℕ → Failure
  bit_eof : BitInput → Failure

-- Parsers on lists, over any errors.
module _ {E : Type 0} (at_end refused : List ℕ → E) (bits_end : BitInput → E) where
  abbrev take_bits : ℕ → BitParser E ℕ
  take_bits k ([], o) = if k == 0 then ok (([], o), 0) else err (bits_end ([], o))
  take_bits k (b ∷ xs, o) =
      if ltb 8 (o + k)
      then err (bits_end (b ∷ xs, o))
      else ok (if o + k == 8 then (xs, 0) else (b ∷ xs, o + k), b / 2 ^ (8 - (o + k)) % 2 ^ k)

  abbrev pair : BitParser E ℕ → BitParser E ℕ → BitParser E (ℕ × ℕ)
  pair p q i = do (j, a) ← p i; (k, b) ← q j; ok (k, (a, b))

  abbrev bits : BitParser E (ℕ × ℕ) → List ℕ → IResult E (ℕ × ℕ)
  bits p xs = do ((ys, o), v) ← p (xs, 0); ok (if o == 0 then ys else drop 1 ys, v)

  abbrev pub parsers_over : Nom E E
  parsers_over = record {
    eof = at_end;
    verify = refused;
    be_u8 = read_uint at_end 1;
    be_u16 = read_uint at_end 2;
    be_u32 = read_uint at_end 4;
    take = split at_end;
    take_bits = take_bits;
    pair = pair;
    bits = bits;
    bit_eof = bits_end;
    convert = λ e. e;
  }

  take_bits_nil : (k : ℕ) → 0 < k → take_bits k ([], 0) ≡ err (bits_end ([], 0))
  take_bits_nil k h = ground arith

  take_bits_cons :
      (k o b : ℕ) (xs : List ℕ)
      → o + k ≤ 8
      → take_bits k (b ∷ xs, o)
        ≡ ok (if o + k == 8 then (xs, 0) else (b ∷ xs, o + k), b / 2 ^ (8 - (o + k)) % 2 ^ k)
  take_bits_cons k o b xs h = let fits : ltb 8 (o + k) ≡ false = ground arith in rw fits

  pub parsers_over-IsLawful : IsLawful parsers_over
  parsers_over-IsLawful = record {
    be_u8_lem = λ xs. refl;
    be_u16_lem = λ xs. refl;
    be_u32_lem = λ xs. refl;
    take_lem = λ k xs. refl;
    take_bits_nil = take_bits_nil;
    take_bits_cons = take_bits_cons;
    pair_ok = λ p q i j k a b first second. rw (first, second);
    pair_err = λ p q i e first. rw first;
    bits_ok = λ p xs ys v parsed. rw parsed;
    bits_err = λ p xs e parsed. rw parsed;
  }

abbrev pub parsers : Nom Failure Failure
parsers = parsers_over eof verify bit_eof

pub parsers-IsLawful : IsLawful parsers
parsers-IsLawful = parsers_over-IsLawful eof verify bit_eof

abbrev pub buffer : Buf (List ℕ)
buffer = record {
  put_u8 = λ s x. s ++ (x % 256) ∷ [];
  put_u16 = λ s x. s ++ be_bytes_16 x;
  put_u32 = λ s x. s ++ be_bytes_32 x;
  put_slice = λ s xs. s ++ xs;
  new = [];
  with_capacity = λ _. [];
  len = length;
  to_vec = λ s. s;
}

pub buffer-IsAppending : IsAppending buffer
buffer-IsAppending = record {
  to_vec-new = refl;
  to_vec-with_capacity = λ k. refl;
  to_vec-put_u8 = λ s x. refl;
  to_vec-put_u16 = λ s x. refl;
  to_vec-put_u32 = λ s x. refl;
  to_vec-put_slice = λ s xs. refl;
  len-to_vec = λ s. refl;
}
