-- ===== src/UnitTests/PduHeader.antt =====
-- The tests of src/codec/pdu_header.rs.
use bluesdp.Prelude.{List, [], ◌∷◌, ◌>>=◌, ℕ}
use bluesdp.Prelude.Text.{String}
use bluesdp.Prelude.Equality.{nat_eq, vec_eq}
use bluesdp.Nom.{Nom}
use bluesdp.Codec.PduHeader.{PduHeader, pdu_header}
use bluesdp.UnitTests.Outcome.{Outcome, assert, assert_eq, is_err, or_return}

module _ {E B : Type 0} (n : Nom E B) (to_string : E → String) where
  abbrev pub parse : List ℕ → Outcome (List ℕ × PduHeader)
  parse input = or_return "pdu_header parse failed: " to_string (pdu_header n input)

  abbrev pub decodes_service_search_attribute_response_header : Outcome (Unit {0})
  decodes_service_search_attribute_response_header = do
    (rest, header) ← parse (0x07 ∷ 0x00 ∷ 0x00 ∷ 0x00 ∷ 0x99 ∷ 0xde ∷ 0xad ∷ [])
    _ ← assert_eq header.pdu_id 0x07
    _ ← assert_eq header.transaction_id 0x0000
    _ ← assert_eq header.parameter_length 0x0099
    assert_eq rest (0xde ∷ 0xad ∷ [])

  abbrev pub decodes_service_search_attribute_request_header : Outcome (Unit {0})
  decodes_service_search_attribute_request_header = do
    (rest, header) ← parse (0x06 ∷ 0x00 ∷ 0x00 ∷ 0x00 ∷ 0x0f ∷ [])
    _ ← assert_eq header.pdu_id 0x06
    _ ← assert_eq header.transaction_id 0x0000
    _ ← assert_eq header.parameter_length 0x000f
    assert_eq rest []

  abbrev pub decodes_nonzero_transaction_id_from_continuation_page : Outcome (Unit {0})
  decodes_nonzero_transaction_id_from_continuation_page = do
    (rest, header) ← parse (0x06 ∷ 0x00 ∷ 0x01 ∷ 0x00 ∷ 0x11 ∷ [])
    _ ← assert_eq header.pdu_id 0x06
    _ ← assert_eq header.transaction_id 0x0001
    _ ← assert_eq header.parameter_length 0x0011
    assert_eq rest []

  abbrev pub truncated_header_is_an_error : Outcome (Unit {0})
  truncated_header_is_an_error = do
    let result = pdu_header n (0x07 ∷ 0x00 ∷ 0x00 ∷ [])
    assert (is_err result)

  abbrev pub empty_input_is_an_error : Outcome (Unit {0})
  empty_input_is_an_error = do let result = pdu_header n []; assert (is_err result)
