-- ===== src/Codec/Element/Complete.antt =====
-- Whatever the grammar derives, `data_element` decodes.
use bluesdp.Prelude.{
  ℕ, zero, suc, ◌+◌, ◌*◌, ◌≤◌, ◌<◌, ◌≡◌, List, [], ◌∷◌, ◌++◌, arith, ok, ap, ◌∙◌, length,
  length-append,
}
use bluesdp.Nom.{Nom, IsLawful}
use bluesdp.Codec.Element.{
  DataElement, Elements, nil, push, data_element, sequence_loop, element_value,
}
use bluesdp.Codec.Element.Grammar.{
  IsHeader, Encodes, EncodesAll, uint, uuid, seq, other, none, more, length-header, Encodes-pos,
}
use bluesdp.Codec.Element.Contents.{append, append-nil_elements, append-push}
use bluesdp.Codec.Element.Open.{
  descriptor_of, contents_with, data_element-open, open_element-append,
}
use bluesdp.Codec.Element.Value.{
  element_value-uint, element_value-uuid, element_value-seq, element_value-other,
}

module _ {E B : Type 0} (n : Nom E B) (lawful : IsLawful n) where
  -- One call of `data_element`, from what its payload decodes to.
  decode_step :
      (t i fuel : ℕ) (header body bytes rest : List ℕ) (e : DataElement)
      → IsHeader t i header (length body)
      → bytes ≡ header ++ body
      → 2 * length bytes ≤ fuel
      → ((f : ℕ)
          → 2 * length body < f
          → element_value n (contents_with n f) (descriptor_of t i) body ≡ ok e)
      → data_element n fuel (bytes ++ rest) ≡ ok (rest, e)
  decode_step t i zero header body bytes rest e h whole enough value =
      absurd (omega (arith, length-header body h whole))
  decode_step t i (suc f) header body bytes rest e h whole enough value =
      let inner : 2 * length body < f = omega (arith, length-header body h whole) in
      rw (
        data_element-open n f (bytes ++ rest),
        whole,
        open_element-append n lawful t i header body rest h,
        value f inner,
      )

  loop_step :
      (fuel : ℕ) (bytes rest : List ℕ) (acc : Elements) (e : DataElement)
      → 0 < length bytes
      → data_element n fuel bytes ≡ ok (rest, e)
      → sequence_loop n (suc fuel) bytes acc ≡ sequence_loop n fuel rest (push acc e)
  unfolding sequence_loop
  loop_step fuel [] rest acc e pos r = absurd (omega arith)
  loop_step fuel (b ∷ bytes) rest acc e pos r = rw r

  mutual
    unfolding sequence_loop

    pub data_element-Encodes_onto :
        {bytes : List ℕ} {e : DataElement}
        → Encodes bytes e
        → (fuel : ℕ) (rest : List ℕ) → 2 * length bytes ≤ fuel
        → data_element n fuel (bytes ++ rest) ≡ ok (rest, e)
    data_element-Encodes_onto (uint {i} header body h wide whole) fuel rest enough =
        decode_step _ i fuel header body _ rest _ h whole enough
          (λ f _. element_value-uint n lawful (contents_with n f) body i wide)
    data_element-Encodes_onto (uuid header body h whole) fuel rest enough =
        decode_step _ 1 fuel header body _ rest _ h whole enough
          (λ f _. element_value-uuid n lawful (contents_with n f) body h.payload_size)
    data_element-Encodes_onto (seq {i} header body {elements = es} h inner whole) fuel rest enough =
        decode_step _ i fuel header body _ rest _ h whole enough (λ f p.
          element_value-seq n lawful (contents_with n f) body i es
            (sequence_loop-EncodesAll_onto inner f nil p))
    data_element-Encodes_onto (other {t} {i} header body h a b c whole) fuel rest enough =
        decode_step t i fuel header body _ rest _ h whole enough (λ f _.
          element_value-other n lawful (contents_with n f) body t i (omega (arith, h.low)) a b c)

    sequence_loop-EncodesAll_onto :
        {bytes : List ℕ} {es : Elements}
        → EncodesAll bytes es
        → (fuel : ℕ) (acc : Elements) → 2 * length bytes < fuel
        → sequence_loop n fuel bytes acc ≡ ok ([], append acc es)
    sequence_loop-EncodesAll_onto none zero acc enough = absurd (omega arith)
    sequence_loop-EncodesAll_onto none (suc f) acc enough = rw append-nil_elements
    sequence_loop-EncodesAll_onto
          (more front back {bytes = bytes} {element = e} {elements = es} first others whole) zero
          acc enough =
        absurd (omega arith)
    sequence_loop-EncodesAll_onto
          (more front back {bytes = bytes} {element = e} {elements = es} first others whole) (suc f)
          acc enough =
        let size : length bytes ≡ length front + length back =
          omega (arith, ap length whole, length-append front back) in
        let taken : data_element n f bytes ≡ ok (back, e) =
          rw whole (data_element-Encodes_onto first f back (omega (arith, Encodes-pos first))) in
        loop_step f bytes back acc e (omega (arith, Encodes-pos first)) taken
        ∙ sequence_loop-EncodesAll_onto others f (push acc e) (omega (arith, Encodes-pos first))
        ∙ ap (λ t. ok ([], t)) (append-push acc e es)
