-- ===== src/Nom/Split.antt =====
-- Splitting a slice after a number of bytes, in terms of which the laws of nom's parsers are put.
use bluesdp.Prelude.{
  ℕ, ◌≤◌, ◌<◌, ◌≡◌, ◌≢◌, List, [], ◌∷◌, ◌++◌, ◌+◌, ◌*◌, ap, sym, ◌∙◌, be_value_8, be_value_16,
  append-nil, arith, Result, ok, err, out_of_fuel, ◌>>=◌, >>=-eq-ok, >>=-ne-out_of_fuel,
  if◌then◌else◌, leb, le→leb, lt→leb_false, length, take, drop, length-append, take-append-drop,
  length-take_of_le, take-append, drop-append, be_value,
}

module _ {ℓ} {E : Type ℓ} (eof : List ℕ → E) where
  -- The first `k` elements behind what follows them.
  unfoldable pub split : ℕ → List ℕ → Result E (List ℕ × List ℕ)
  split k xs = if leb k (length xs) then ok (drop k xs, take k xs) else err (eof xs)

  unfoldable pub read_uint : ℕ → List ℕ → Result E (List ℕ × ℕ)
  read_uint k xs = do (rest, bytes) ← split k xs; ok (rest, be_value bytes)

  pub split-append : (k : ℕ) (ys zs : List ℕ) → length ys ≡ k → split k (ys ++ zs) ≡ ok (zs, ys)
  unfolding split
  split-append k ys zs h =
      let fits : length ys ≤ length (ys ++ zs) = omega (arith, length-append ys zs) in
      rw (← h, le→leb _ _ fits, take-append ys zs, drop-append ys zs)

  pub split_short : (k : ℕ) (xs : List ℕ) → length xs < k → split k xs ≡ err (eof xs)
  unfolding split
  split_short k xs h = rw (lt→leb_false k (length xs) h)

  pub split-eq-ok :
      (k : ℕ) (xs rest ys : List ℕ)
      → split k xs ≡ ok (rest, ys)
      → (xs ≡ ys ++ rest) × (length ys ≡ k)
  unfolding split
  split-eq-ok k xs rest ys h = ground (arith, take-append-drop k xs, length-take_of_le k xs)

  pub split-ne-out_of_fuel : (k : ℕ) (xs : List ℕ) → split k xs ≢ out_of_fuel
  unfolding split
  split-ne-out_of_fuel k xs h = ground arith

  pub read_uint-append :
      (k : ℕ) (ys zs : List ℕ) → length ys ≡ k → read_uint k (ys ++ zs) ≡ ok (zs, be_value ys)
  unfolding read_uint
  read_uint-append k ys zs h = rw (split-append k ys zs h)

  pub read_uint_exact :
      (k : ℕ) (ys : List ℕ) → length ys ≡ k → read_uint k ys ≡ ok ([], be_value ys)
  read_uint_exact k ys h = rw append-nil at (read_uint-append k ys [] h)

  pub read_uint_short : (k : ℕ) (xs : List ℕ) → length xs < k → read_uint k xs ≡ err (eof xs)
  unfolding read_uint
  read_uint_short k xs h = rw (split_short k xs h)

  pub read_uint-eq-ok :
      (k : ℕ) (xs rest : List ℕ) (v : ℕ)
      → read_uint k xs ≡ ok (rest, v)
      → (ys : List ℕ) × (xs ≡ ys ++ rest) × (length ys ≡ k) × (be_value ys ≡ v)
  unfolding read_uint
  read_uint-eq-ok k xs rest v h =
      let ((rest', ys), first, last) = >>=-eq-ok (split k xs) _ h in
      let (whole, size) = split-eq-ok k xs rest' ys first in
      (ys, ground (arith, whole), size, ground arith)

  one_byte :
      (xs rest ys : List ℕ) (v : ℕ)
      → xs ≡ ys ++ rest
      → length ys ≡ 1
      → be_value ys ≡ v
      → xs ≡ v ∷ rest
  one_byte xs rest [] v whole size value = absurd (omega arith)
  one_byte xs rest (a ∷ []) v whole size value =
      whole ∙ ap (λ t. t ∷ rest) (sym (be_value_8 a) ∙ value)
  one_byte xs rest (a ∷ b ∷ ys) v whole size value = absurd (omega arith)

  two_bytes :
      (xs rest ys : List ℕ) (v : ℕ)
      → xs ≡ ys ++ rest
      → length ys ≡ 2
      → be_value ys ≡ v
      → (a b : ℕ) × (xs ≡ a ∷ b ∷ rest) × (v ≡ a * 256 + b)
  two_bytes xs rest [] v whole size value = absurd (omega arith)
  two_bytes xs rest (a ∷ []) v whole size value = absurd (omega arith)
  two_bytes xs rest (a ∷ b ∷ []) v whole size value = (a, b, whole, sym value ∙ be_value_16 a b)
  two_bytes xs rest (a ∷ b ∷ c ∷ ys) v whole size value = absurd (omega arith)

  pub read_u8-eq-ok : (xs rest : List ℕ) (v : ℕ) → read_uint 1 xs ≡ ok (rest, v) → xs ≡ v ∷ rest
  read_u8-eq-ok xs rest v h =
      let (ys, whole, size, value) = read_uint-eq-ok 1 xs rest v h in
      one_byte xs rest ys v whole size value

  pub read_u16-eq-ok :
      (xs rest : List ℕ) (v : ℕ)
      → read_uint 2 xs ≡ ok (rest, v)
      → (a b : ℕ) × (xs ≡ a ∷ b ∷ rest) × (v ≡ a * 256 + b)
  read_u16-eq-ok xs rest v h =
      let (ys, whole, size, value) = read_uint-eq-ok 2 xs rest v h in
      two_bytes xs rest ys v whole size value

  pub read_uint-ne-out_of_fuel : (k : ℕ) (xs : List ℕ) → read_uint k xs ≢ out_of_fuel
  unfolding read_uint
  read_uint-ne-out_of_fuel k xs =
      >>=-ne-out_of_fuel (split k xs) _ (split-ne-out_of_fuel k xs) (λ a e p. cc)
