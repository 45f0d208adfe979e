-- ===== src/Buf.antt =====
-- What codec takes from the crate bytes, as a parameter: a growing buffer and its big-endian
-- writers, and the laws that its documentation states.
use bluesdp.Prelude.{ℕ, ◌%◌, ◌≡◌, List, [], ◌∷◌, ◌++◌, length, be_bytes_16, be_bytes_32}

-- `B` is `BytesMut`; the fields but the last four are the methods of `BufMut`.
pub record Buf (B : Type 0) : Type 0 where
  pub put_u8 : B → ℕ → B
  pub put_u16 : B → ℕ → B
  pub put_u32 : B → ℕ → B
  pub put_slice : B → List ℕ → B
  pub new : B
  pub with_capacity : ℕ → B
  pub len : B → ℕ
  pub to_vec : B → List ℕ

-- A new buffer is empty, with a capacity or without, and a writer appends.
pub record IsAppending {B : Type 0} (b : Buf B) : Type 0 where
  pub to_vec-new : b.to_vec b.new ≡ []
  pub to_vec-with_capacity : (k : ℕ) → b.to_vec (b.with_capacity k) ≡ []
  pub to_vec-put_u8 : (s : B) (x : ℕ) → b.to_vec (b.put_u8 s x) ≡ b.to_vec s ++ (x % 256) ∷ []
  pub to_vec-put_u16 : (s : B) (x : ℕ) → b.to_vec (b.put_u16 s x) ≡ b.to_vec s ++ be_bytes_16 x
  pub to_vec-put_u32 : (s : B) (x : ℕ) → b.to_vec (b.put_u32 s x) ≡ b.to_vec s ++ be_bytes_32 x
  pub to_vec-put_slice : (s : B) (xs : List ℕ) → b.to_vec (b.put_slice s xs) ≡ b.to_vec s ++ xs
  pub len-to_vec : (s : B) → b.len s ≡ length (b.to_vec s)
