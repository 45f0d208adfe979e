-- ===== src/Tests/Pages.antt =====
-- A response of two pages, with one record, whose RFCOMM channel is 13.
use bluesdp.Prelude.{ℕ, refl, List, [], ◌∷◌, arith}
use bluesdp.Codec.Response.{RawServiceSearchAttributeResponse}
use bluesdp.Codec.Response.Framing.{IsFrame}
use bluesdp.Transport.Session.Pages.{IsPage, Paged, last, more}

abbrev pub attributes : List ℕ
attributes =
    0x35 ∷ 0x13 ∷ 0x35 ∷ 0x11 ∷ 0x09 ∷ 0x00 ∷ 0x04 ∷ 0x35 ∷ 0x0c ∷ 0x35 ∷ 0x03 ∷ 0x19 ∷ 0x01 ∷ 0x00
    ∷ 0x35 ∷ 0x05 ∷ 0x19 ∷ 0x00 ∷ 0x03 ∷ 0x08 ∷ 0x0d ∷ []

abbrev pub first_attributes : List ℕ
first_attributes = 0x35 ∷ 0x13 ∷ 0x35 ∷ 0x11 ∷ 0x09 ∷ 0x00 ∷ 0x04 ∷ 0x35 ∷ 0x0c ∷ 0x35 ∷ []

abbrev pub last_attributes : List ℕ
last_attributes = 0x03 ∷ 0x19 ∷ 0x01 ∷ 0x00 ∷ 0x35 ∷ 0x05 ∷ 0x19 ∷ 0x00 ∷ 0x03 ∷ 0x08 ∷ 0x0d ∷ []

-- The first page ends in a continuation state, the last in none.
abbrev pub first_page : List ℕ
first_page =
    0x07 ∷ 0x00 ∷ 0x00 ∷ 0x00 ∷ 0x0f ∷ 0x00 ∷ 0x0a ∷ 0x35 ∷ 0x13 ∷ 0x35 ∷ 0x11 ∷ 0x09 ∷ 0x00 ∷ 0x04
    ∷ 0x35 ∷ 0x0c ∷ 0x35 ∷ 0x02 ∷ 0x00 ∷ 0x0a ∷ []

abbrev pub last_page : List ℕ
last_page =
    0x07 ∷ 0x00 ∷ 0x01 ∷ 0x00 ∷ 0x0e ∷ 0x00 ∷ 0x0b ∷ 0x03 ∷ 0x19 ∷ 0x01 ∷ 0x00 ∷ 0x35 ∷ 0x05 ∷ 0x19
    ∷ 0x00 ∷ 0x03 ∷ 0x08 ∷ 0x0d ∷ 0x00 ∷ []

abbrev pub first_raw : RawServiceSearchAttributeResponse
first_raw = record {
  header = record { pdu_id = 7; transaction_id = 0; parameter_length = 15 };
  attribute_bytes = first_attributes;
  continuation_state = 0x00 ∷ 0x0a ∷ [];
}

abbrev pub last_raw : RawServiceSearchAttributeResponse
last_raw = record {
  header = record { pdu_id = 7; transaction_id = 1; parameter_length = 14 };
  attribute_bytes = last_attributes;
  continuation_state = [];
}

pub first_page-IsFrame : IsFrame first_page [] first_raw
first_page-IsFrame = record {
  t₁ = 0;
  t₂ = 0;
  l₁ = 0;
  l₂ = 15;
  a₁ = 0;
  a₂ = 10;
  transaction = refl;
  parameter = refl;
  attribute_size = refl;
  whole = refl;
}

pub first_page-IsPage : IsPage first_page first_raw
first_page-IsPage = record { frame = first_page-IsFrame; sized = refl; short = omega arith }

last_page-IsPage : IsPage last_page last_raw
last_page-IsPage = record {
  frame = record {
    t₁ = 0;
    t₂ = 1;
    l₁ = 0;
    l₂ = 14;
    a₁ = 0;
    a₂ = 11;
    transaction = refl;
    parameter = refl;
    attribute_size = refl;
    whole = refl;
  };
  sized = refl;
  short = omega arith;
}

pub pages : Paged (first_page ∷ last_page ∷ []) attributes ((0x00 ∷ 0x0a ∷ []) ∷ [])
pages =
    more first_page first_raw 0x00 (0x0a ∷ []) last_attributes first_page-IsPage refl
      (last last_page last_raw last_page-IsPage refl refl) refl
