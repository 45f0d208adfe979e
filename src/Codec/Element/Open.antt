-- ===== src/Codec/Element/Open.antt =====
-- The first three steps of `data_element`, which find the payload of an element, against the
-- grammar.
use bluesdp.Prelude.{
  ℕ, suc, ◌/◌, ◌%◌, ◌<◌, ◌≡◌, refl, List, [], ◌∷◌, ◌++◌, append_assoc, arith, ok, sym, ◌∙◌, ap,
  out_of_fuel, length, ◌>>=◌, >>=-eq-ok, >>=-ne-out_of_fuel, >>=_assoc, decode_rest-eq-ok, ◌≢◌,
}
use bluesdp.Nom.{Nom, IsLawful, IResult}
use bluesdp.Nom.Split.{split, split-append, split-eq-ok, split-ne-out_of_fuel}
use bluesdp.Codec.Descriptor.{Descriptor, resolve_size, descriptor}
use bluesdp.Codec.Descriptor.Laws.{descriptor-cons, descriptor-nil}
use bluesdp.Codec.Element.{
  DataElement, Elements, payload_len, element_value, data_element, sequence_loop, nil,
}
use bluesdp.Codec.Element.Grammar.{IsHeader}
use bluesdp.Codec.Element.Header.{payload_len-append, payload_len-eq-ok, payload_len-ne-out_of_fuel}

abbrev pub descriptor_of : ℕ → ℕ → Descriptor
descriptor_of t i = record { element_type = t; size = resolve_size t i }

module _ {E B : Type 0} (n : Nom E B) where
  -- The decoder that a call of `data_element` has for a sequence's contents.
  abbrev pub contents_with : ℕ → List ℕ → IResult E Elements
  contents_with fuel bytes = sequence_loop n fuel bytes nil

  pub open_element : List ℕ → IResult E (Descriptor × List ℕ)
  open_element input = do
    (after_descriptor, desc) ← descriptor n input
    (after_len, len) ← payload_len n after_descriptor desc.size
    (rest, body) ← n.take len after_len
    ok (rest, (desc, body))

  -- `data_element` opens the element, then decodes the payload.
  pub data_element-open :
      (fuel : ℕ) (input : List ℕ)
      → data_element n (suc fuel) input ≡ (
          open_element input >>= λ (rest, opened).
          element_value n (contents_with fuel) opened.0 opened.1 >>= λ element. ok (rest, element))
  unfolding open_element data_element
  data_element-open fuel input = simp >>=_assoc

  pub data_element-eq-ok :
      (fuel : ℕ) (input rest : List ℕ) (e : DataElement)
      → data_element n (suc fuel) input ≡ ok (rest, e)
      → (o : Descriptor × List ℕ) × (open_element input ≡ ok (rest, o))
        × (element_value n (contents_with fuel) o.0 o.1 ≡ ok e)
  data_element-eq-ok fuel input rest e r =
      decode_rest-eq-ok (open_element input) _ (rw (data_element-open fuel input) at r)

module _ {E B : Type 0} (n : Nom E B) (lawful : IsLawful n) where
  pub open_element-append :
      (t i : ℕ) (header body rest : List ℕ)
      → IsHeader t i header (length body)
      → open_element n ((header ++ body) ++ rest) ≡ ok (rest, (descriptor_of t i, body))
  unfolding open_element
  open_element-append t i header body rest h =
      let index : i < 8 = omega (arith, h.low) in
      rw (
        h.whole,
        append_assoc h.field body rest,
        descriptor-cons n lawful h.first (h.field ++ (body ++ rest)),
        h.high,
        h.low,
        payload_len-append n lawful t i h.field (body ++ rest) index h.field_size,
        ← h.payload_size,
        lawful.take_lem,
        split-append n.eof (length body) body rest refl,
      )

  -- The converse: what was opened is a header of the grammar and as many bytes as it announces.
  pub record IsOpened (input rest : List ℕ) (desc : Descriptor) (body : List ℕ) : Type 0 where
    pub kind : ℕ
    pub index : ℕ
    pub header : List ℕ
    pub described : desc ≡ descriptor_of kind index
    pub valid : IsHeader kind index header (length body)
    pub whole : input ≡ (header ++ body) ++ rest

  pub open_element-eq-ok :
      (input rest : List ℕ) (desc : Descriptor) (body : List ℕ)
      → open_element n input ≡ ok (rest, (desc, body))
      → IsOpened input rest desc body
  unfolding open_element
  open_element-eq-ok [] rest desc body e = let impossible = rw (descriptor-nil n lawful) at e in cc
  open_element-eq-ok (b ∷ bytes) rest desc body e =
      let ((after, len), measured, taking) =
        >>=-eq-ok (payload_len n bytes _) _ (rw (descriptor-cons n lawful b bytes) at e) in
      let ((rest', body'), taken, last) = >>=-eq-ok (n.take len after) _ taking in
      let (field, whole, size, announced) =
        payload_len-eq-ok n lawful _ (b % 8) bytes after len (omega arith) measured in
      let (cut, fits) = split-eq-ok n.eof len after rest' body' (rw lawful.take_lem at taken) in
      let same : body' ≡ body = cc in
      let left : rest' ≡ rest = cc in
      record {
        kind = b / 8 % 32;
        index = b % 8;
        header = b ∷ field;
        described = cc;
        valid = record {
          first = b;
          field = field;
          whole = refl;
          high = refl;
          low = refl;
          field_size = size;
          payload_size = rw (← same) (fits ∙ announced);
        };
        whole = ap (λ t. b ∷ t) (whole ∙ rw (cut, same, left) (sym (append_assoc field body rest)));
      }

  pub open_element-ne-out_of_fuel : (input : List ℕ) → open_element n input ≢ out_of_fuel
  unfolding open_element
  open_element-ne-out_of_fuel [] = rw (descriptor-nil n lawful) (λ e. cc)
  open_element-ne-out_of_fuel (b ∷ bytes) = rw (descriptor-cons n lawful b bytes) (
      >>=-ne-out_of_fuel (payload_len n bytes _) _ (payload_len-ne-out_of_fuel n lawful bytes _)
        λ (after, len) _. rw lawful.take_lem (
          >>=-ne-out_of_fuel (split n.eof len after) _ (split-ne-out_of_fuel n.eof len after)
            λ _ _ e. cc))
