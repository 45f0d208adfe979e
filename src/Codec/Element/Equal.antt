-- ===== src/Codec/Element/Equal.antt =====
-- Equality of the elements of src/codec/element.rs, with which the tests compare them.
use bluesdp.Prelude.{◌≡◌, ◌↔◌, refl, ap, subst, Bool, true, false, ◌&&◌, ◌==◌, ==_iff}
use bluesdp.Prelude.Equality.{Eq, &&-eq-true}
use bluesdp.Codec.Element.{
  DataElement, Elements, unsigned_int, uuid16, sequence, unknown, nil, cons,
}

unfoldable mutual
  pub element_eq : DataElement → DataElement → Bool
  element_eq (unsigned_int a) (unsigned_int b) = a == b
  element_eq (uuid16 a) (uuid16 b) = a == b
  element_eq (sequence es) (sequence fs) = elements_eq es fs
  element_eq unknown unknown = true
  element_eq _ _ = false

  pub elements_eq : Elements → Elements → Bool
  elements_eq nil nil = true
  elements_eq (cons e es) (cons f fs) = element_eq e f && elements_eq es fs
  elements_eq _ _ = false

mutual
  unfolding element_eq elements_eq

  sound : (a b : DataElement) → element_eq a b ≡ true → a ≡ b
  sound (unsigned_int a) (unsigned_int b) h = ap unsigned_int ((==_iff a b).0 h)
  sound (uuid16 a) (uuid16 b) h = ap uuid16 ((==_iff a b).0 h)
  sound (sequence es) (sequence fs) h = ap sequence (sound_all es fs h)
  sound unknown unknown h = refl
  sound _ _ h = cc

  sound_all : (es fs : Elements) → elements_eq es fs ≡ true → es ≡ fs
  sound_all nil nil h = refl
  sound_all (cons e es) (cons f fs) h =
      let (first, rest) = &&-eq-true (element_eq e f) (elements_eq es fs) h in
      rw (sound e f first, sound_all es fs rest) refl
  sound_all _ _ h = cc

mutual
  unfolding element_eq elements_eq

  reflexive : (a : DataElement) → element_eq a a ≡ true
  reflexive (unsigned_int a) = (==_iff a a).1 refl
  reflexive (uuid16 a) = (==_iff a a).1 refl
  reflexive (sequence es) = reflexive_all es
  reflexive unknown = refl

  reflexive_all : (es : Elements) → elements_eq es es ≡ true
  reflexive_all nil = refl
  reflexive_all (cons e es) = rw (reflexive e) (reflexive_all es)

-- Two elements are equal for the program exactly when they are the same element, at every depth.
pub element_eq_iff : (a b : DataElement) → (element_eq a b ≡ true) ↔ (a ≡ b)
element_eq_iff a b = (sound a b, λ h. subst (λ x. element_eq a x ≡ true) h (reflexive a))

instance abbrev pub data_element_eq : Eq DataElement
data_element_eq = record { eq = element_eq; eq_iff = element_eq_iff }
