-- ===== src/Codec/Element/Sound.antt =====
-- Whatever `data_element` decodes, the grammar derives from the bytes that it took.
use bluesdp.Prelude.{ℕ, zero, suc, ◌≡◌, refl, List, [], ◌∷◌, ◌++◌, ok, ◌∙◌, >>=-eq-ok}
use bluesdp.Nom.{Nom, IsLawful}
use bluesdp.Codec.Element.{DataElement, Elements, nil, cons, push, data_element, sequence_loop}
use bluesdp.Codec.Element.Grammar.{Encodes, EncodesAll, none, more}
use bluesdp.Codec.Element.Contents.{append, append-nil_elements, append-push}
use bluesdp.Codec.Element.Open.{contents_with, data_element-eq-ok, open_element-eq-ok}
use bluesdp.Codec.Element.Value.{element_value-Encodes}

-- `data_element` took bytes off the front of its input that encode `e`.
abbrev pub Decoded : List ℕ → List ℕ → DataElement → Type 0
Decoded input rest e = (bytes : List ℕ) × (input ≡ bytes ++ rest) × Encodes bytes e

-- `sequence_loop` pushed elements that its whole input encodes.
abbrev pub DecodedAll : List ℕ → Elements → Elements → Type 0
DecodedAll input acc es = (others : Elements) × (es ≡ append acc others) × EncodesAll input others

module _ {E B : Type 0} (n : Nom E B) (lawful : IsLawful n) where
  mutual
    unfolding sequence_loop

    pub data_element-Decoded :
        (fuel : ℕ) (input rest : List ℕ) (e : DataElement)
        → data_element n fuel input ≡ ok (rest, e)
        → Decoded input rest e
    data_element-Decoded zero input rest e r = cc
    data_element-Decoded (suc f) input rest e r =
        let ((desc, body), opening, value) = data_element-eq-ok n f input rest e r in
        let o = open_element-eq-ok n lawful input rest desc body opening in
        (
          o.header ++ body,
          o.whole,
          element_value-Encodes n lawful (contents_with n f) body o.header refl o.kind o.index e
              o.valid
              (λ rest' es s.
                let (others, pushed, derived) = sequence_loop-DecodedAll f body rest' nil es s in
                rw pushed derived)
              (rw o.described at value),
        )

    pub sequence_loop-DecodedAll :
        (fuel : ℕ) (input rest : List ℕ) (acc es : Elements)
        → sequence_loop n fuel input acc ≡ ok (rest, es)
        → DecodedAll input acc es
    sequence_loop-DecodedAll zero input rest acc es r = cc
    sequence_loop-DecodedAll (suc f) [] rest acc es r = (nil, rw append-nil_elements (cc), none)
    sequence_loop-DecodedAll (suc f) (b ∷ input) rest acc es r =
        let ((rest', e), first, others) = >>=-eq-ok (data_element n f (b ∷ input)) _ r in
        let (front, cut, derived) = data_element-Decoded f (b ∷ input) rest' e first in
        let (tail, pushed, derived_tail) =
          sequence_loop-DecodedAll f rest' rest (push acc e) es others in
        (cons e tail, pushed ∙ append-push acc e tail, more front rest' derived derived_tail cut)
