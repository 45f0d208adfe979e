-- ===== src/Codec/Element/Contents.antt =====
-- The elements that `sequence_loop` has pushed, and those still to come.
use bluesdp.Prelude.{◌≡◌, refl, ap}
use bluesdp.Codec.Element.{DataElement, Elements, nil, cons, push}

abbrev pub append : Elements → Elements → Elements
append nil ys = ys
append (cons x xs) ys = cons x (append xs ys)

pub append-nil_elements : (xs : Elements) → append xs nil ≡ xs
append-nil_elements nil = refl
append-nil_elements (cons x xs) = ap (cons x) (append-nil_elements xs)

pub append-push :
    (xs : Elements) (e : DataElement) (ys : Elements)
    → append (push xs e) ys ≡ append xs (cons e ys)
unfolding push
append-push nil e ys = refl
append-push (cons x xs) e ys = ap (cons x) (append-push xs e ys)
