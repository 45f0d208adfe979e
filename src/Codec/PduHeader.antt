-- ===== src/Codec/PduHeader.antt =====
-- src/codec/pdu_header.rs: the five bytes at the front of every SDP PDU.
pub mod Laws
use bluesdp.Prelude.{ℕ, List, Result, ok, ◌>>=◌}
use bluesdp.Nom.{Nom, IResult}

pub record PduHeader : Type 0 where
  pub pdu_id : ℕ
  pub transaction_id : ℕ
  pub parameter_length : ℕ

module _ {E B : Type 0} (n : Nom E B) where
  unfoldable pub pdu_header : List ℕ → IResult E PduHeader
  pdu_header input = do
    (rest, pdu_id) ← n.be_u8 input
    (rest', transaction_id) ← n.be_u16 rest
    (rest'', parameter_length) ← n.be_u16 rest'
    ok (
      rest'',
      record {
        pdu_id = pdu_id;
        transaction_id = transaction_id;
        parameter_length = parameter_length;
      },
    )
