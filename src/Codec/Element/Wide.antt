-- ===== src/Codec/Element/Wide.antt =====
-- Unsigned integers of a width that src/codec/element.rs does not decode, which are those of 8 and
-- of 16 bytes and those behind a length field that says none of 1, 2 and 4.
use bluesdp.Prelude.{
  ℕ, zero, suc, ◌+◌, ◌*◌, ◌≤◌, ◌<◌, ◌≡◌, ◌≢◌, refl, List, [], ◌∷◌, ◌++◌, arith, ok, err, ap, sym,
  ◌∙◌, length, length-append, Result-cases, inl, inr, >>=-eq-ok, ok-injective,
}
use bluesdp.Nom.{Nom, IsLawful}
use bluesdp.Codec.Descriptor.{Descriptor}
use bluesdp.Codec.Element.{
  DataElement, Elements, nil, push, data_element, sequence_loop, element_value, fuel_for, uint_type,
  sequence_type, uint_value,
}
use bluesdp.Codec.Element.Grammar.{IsHeader, IsUintWidth, Encodes, Encodes-pos, length-header}
use bluesdp.Codec.Element.Open.{
  descriptor_of, contents_with, open_element, open_element-append, data_element-eq-ok,
}
use bluesdp.Codec.Element.Value.{uint_value-eq-ok}
use bluesdp.Codec.Element.Complete.{data_element-Encodes_onto}
use bluesdp.Codec.Element.Total.{data_element-total}

-- Such an integer is at the front, or in the sequence at the front behind elements of the grammar,
-- at any depth.
mutual
  pub data Wide : List ℕ → Type 0 where
    here :
        {i : ℕ} (header body rest : List ℕ) {bytes : List ℕ}
        → IsHeader uint_type i header (length body)
        → ¬ IsUintWidth (length body)
        → bytes ≡ (header ++ body) ++ rest
        → Wide bytes
    inside :
        {i : ℕ} (header body rest : List ℕ) {bytes : List ℕ}
        → IsHeader sequence_type i header (length body)
        → WideIn body
        → bytes ≡ (header ++ body) ++ rest
        → Wide bytes

  pub data WideIn : List ℕ → Type 0 where
    first : {bytes : List ℕ} → Wide bytes → WideIn bytes
    later :
        (front back : List ℕ) {bytes : List ℕ} {element : DataElement}
        → Encodes front element
        → WideIn back
        → bytes ≡ front ++ back
        → WideIn bytes

longer :
    {t i : ℕ} (header body rest : List ℕ) {bytes : List ℕ}
    → IsHeader t i header (length body)
    → bytes ≡ (header ++ body) ++ rest
    → length body < length bytes
longer header body rest {bytes} h whole =
    omega (arith, length-header body h refl, ap length whole, length-append (header ++ body) rest)

Wide-pos : {bytes : List ℕ} → Wide bytes → 0 < length bytes
Wide-pos (here header body rest h wide whole) = omega (arith, longer header body rest h whole)
Wide-pos (inside header body rest h inner whole) = omega (arith, longer header body rest h whole)

module _ {E B : Type 0} (n : Nom E B) (lawful : IsLawful n) where
  -- What a successful call decoded the payload to.
  payload_decoded :
      {t i : ℕ} (fuel : ℕ) (header body rest : List ℕ) {bytes : List ℕ} (p : List ℕ × DataElement)
      → IsHeader t i header (length body)
      → bytes ≡ (header ++ body) ++ rest
      → data_element n (suc fuel) bytes ≡ ok p
      → element_value n (contents_with n fuel) (descriptor_of t i) body ≡ ok p.1
  payload_decoded {t} {i} fuel header body rest {bytes} p h whole r =
      let (o, opened, value) = data_element-eq-ok n fuel bytes p.0 p.1 r in
      let known : open_element n bytes ≡ ok (rest, (descriptor_of t i, body)) =
        rw whole (open_element-append n lawful t i header body rest h) in
      let same : o ≡ (descriptor_of t i, body) =
        ap (λ (q : List ℕ × (Descriptor × List ℕ)). q.1) (ok-injective (sym opened ∙ known)) in
      rw same at value

  uint_refused :
      (i f : ℕ) (body : List ℕ) (e : DataElement)
      → ¬ IsUintWidth (length body)
      → element_value n (contents_with n f) (descriptor_of uint_type i) body ≢ ok e
  unfolding element_value
  uint_refused i f body e wide r =
      let (p, read, _) = >>=-eq-ok (uint_value n body) _ r in
      wide (uint_value-eq-ok n lawful body p read).0

  seq_refused :
      (i f : ℕ) (body : List ℕ) (e : DataElement)
      → ((p : List ℕ × Elements) → sequence_loop n f body nil ≢ ok p)
      → element_value n (contents_with n f) (descriptor_of sequence_type i) body ≢ ok e
  unfolding element_value
  seq_refused i f body e refused r =
      let (p, read, _) = >>=-eq-ok (sequence_loop n f body nil) _ r in refused p read

  loop_opens :
      (f : ℕ) (bytes : List ℕ) (acc : Elements) (p : List ℕ × Elements)
      → 0 < length bytes
      → sequence_loop n (suc f) bytes acc ≡ ok p
      → (q : List ℕ × DataElement) × (data_element n f bytes ≡ ok q)
        × (sequence_loop n f q.0 (push acc q.1) ≡ ok p)
  unfolding sequence_loop
  loop_opens f [] acc p pos r = absurd (omega arith)
  loop_opens f (b ∷ bytes) acc p pos r = >>=-eq-ok (data_element n f (b ∷ bytes)) _ r

  mutual
    data_element-Wide_refused :
        {bytes : List ℕ}
        → Wide bytes
        → (fuel : ℕ) (p : List ℕ × DataElement) → 2 * length bytes ≤ fuel
        → data_element n fuel bytes ≢ ok p
    data_element-Wide_refused w zero p enough r = absurd (omega (arith, Wide-pos w))
    data_element-Wide_refused (here {i} header body rest h wide whole) (suc f) p enough r =
        uint_refused i f body p.1 wide (payload_decoded f header body rest p h whole r)
    data_element-Wide_refused (inside {i} header body rest h inner whole) (suc f) p enough r =
        let fits : 2 * length body < f = omega (arith, longer header body rest h whole) in
        seq_refused i f body p.1 (λ q. sequence_loop-WideIn_refused inner f nil q fits)
          (payload_decoded f header body rest p h whole r)

    sequence_loop-WideIn_refused :
        {bytes : List ℕ}
        → WideIn bytes
        → (fuel : ℕ) (acc : Elements) (p : List ℕ × Elements) → 2 * length bytes < fuel
        → sequence_loop n fuel bytes acc ≢ ok p
    sequence_loop-WideIn_refused w zero acc p enough r = absurd (omega arith)
    sequence_loop-WideIn_refused (first {bytes} w) (suc f) acc p enough r =
        let (q, read, _) = loop_opens f bytes acc p (Wide-pos w) r in
        data_element-Wide_refused w f q (omega arith) read
    sequence_loop-WideIn_refused (later front back {bytes} {element} derived inner whole) (suc f)
          acc p enough r =
        let size : length bytes ≡ length front + length back =
          ap length whole ∙ length-append front back in
        let pos : 0 < length front = Encodes-pos derived in
        let (q, read, others) = loop_opens f bytes acc p (omega arith) r in
        let known : data_element n f bytes ≡ ok (back, element) =
          rw whole (data_element-Encodes_onto n lawful derived f back (omega arith)) in
        let same : q ≡ (back, element) = ok-injective (sym read ∙ known) in
        sequence_loop-WideIn_refused inner f (push acc element) p (omega arith) (rw same at others)

  -- Input with such an integer, at its front or in the sequence at its front, at any depth, gives
  -- an error.
  pub data_element-Wide :
      (bytes : List ℕ) → Wide bytes → (e : E) × (data_element n (fuel_for bytes) bytes ≡ err e)
  data_element-Wide bytes w =
      elim (Result-cases (data_element n (fuel_for bytes) bytes)
        (data_element-total n lawful bytes)) [
          | inl (p, decoded) ↦
              absurd (data_element-Wide_refused w (fuel_for bytes) p (omega arith) decoded)
          | inr refused ↦ refused
        ]
