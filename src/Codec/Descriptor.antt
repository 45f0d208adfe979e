-- ===== src/Codec/Descriptor.antt =====
-- src/codec/descriptor.rs: the byte that opens a data element, a type and a size index.
pub mod Laws
pub mod Equal
use bluesdp.Prelude.{ℕ, List, Bool, true, false, Result, ok, ◌>>=◌, ◌==◌, if◌then◌else◌, not}
use bluesdp.Nom.{Nom, IResult}

pub data ElementSize : Type 0 where
  fixed : ℕ → ElementSize
  var_len_8 var_len_16 var_len_32 : ElementSize

-- The derived `==`.
abbrev pub size_eq : ElementSize → ElementSize → Bool
size_eq (fixed a) (fixed b) = a == b
size_eq var_len_8 var_len_8 = true
size_eq var_len_16 var_len_16 = true
size_eq var_len_32 var_len_32 = true
size_eq _ _ = false

pub record Descriptor : Type 0 where
  pub element_type : ℕ
  pub size : ElementSize

-- `u8::from(bool)`
abbrev pub u8_from : Bool → ℕ
u8_from true = 1
u8_from false = 0

unfoldable pub resolve_size : ℕ → ℕ → ElementSize
resolve_size element_type size_index =
    if size_index == 0
    then fixed (u8_from (not (element_type == 0)))
    else if size_index == 1
    then fixed 2
    else if size_index == 2
    then fixed 4
    else if size_index == 3
    then fixed 8
    else if size_index == 4
    then fixed 16
    else if size_index == 5
    then var_len_8
    else if size_index == 6
    then var_len_16
    else var_len_32

module _ {E B : Type 0} (n : Nom E B) where
  unfoldable pub descriptor : List ℕ → IResult E Descriptor
  descriptor input = do
    let bit_parser = n.pair (n.take_bits 5) (n.take_bits 3)
    (rest, (element_type, size_index)) ← n.bits bit_parser input
    let size = resolve_size element_type size_index
    ok (rest, record { element_type = element_type; size = size })
