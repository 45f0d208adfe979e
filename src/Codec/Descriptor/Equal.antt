-- ===== src/Codec/Descriptor/Equal.antt =====
-- The derived `PartialEq` of `ElementSize` in src/codec/descriptor.rs decides equality.
use bluesdp.Prelude.{◌≡◌, ◌↔◌, refl, ap, ==_iff, true}
use bluesdp.Prelude.Equality.{Eq}
use bluesdp.Codec.Descriptor.{ElementSize, fixed, var_len_8, var_len_16, var_len_32, size_eq}

sound : (a b : ElementSize) → size_eq a b ≡ true → a ≡ b
sound (fixed a) (fixed b) h = ap fixed ((==_iff a b).0 h)
sound var_len_8 var_len_8 h = refl
sound var_len_16 var_len_16 h = refl
sound var_len_32 var_len_32 h = refl
sound _ _ h = cc

reflexive : (a : ElementSize) → size_eq a a ≡ true
reflexive (fixed a) = (==_iff a a).1 refl
reflexive var_len_8 = refl
reflexive var_len_16 = refl
reflexive var_len_32 = refl

pub size_eq_iff : (a b : ElementSize) → (size_eq a b ≡ true) ↔ (a ≡ b)
size_eq_iff a b = (sound a b, λ h. rw (← h) (reflexive a))

instance abbrev pub element_size_eq : Eq ElementSize
element_size_eq = record { eq = size_eq; eq_iff = size_eq_iff }
