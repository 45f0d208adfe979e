-- ===== src/Transport/Socket.antt =====
-- src/transport/socket.rs: one request and one response over a stream.
pub mod Pdu
pub mod Peer
pub mod Errors
use bluesdp.Prelude.{ℕ, ◌+◌, ◌*◌, List, [], ◌∷◌, ◌++◌, Result, map_err}
use bluesdp.Prelude
use bluesdp.Io.{Io, ◌>>=◌, lift, Stream, Timed}

abbrev pub pdu_header_len : ℕ
pdu_header_len = 5

-- 20 seconds, in milliseconds.
abbrev pub response_timeout : ℕ
response_timeout = 20000

pub data SocketError : Type 0 where
  io timeout : SocketError

-- The two `map_err` that follow each wait, with their `?`.
abbrev pub settle : {X A : Type 0} → Timed X A → Result SocketError A
settle outcome = Prelude.◌>>=◌ (map_err (λ _. timeout) outcome) (map_err (λ _. io))

-- `u16::from_be_bytes` on the last two bytes of the header. A header has five.
unfoldable pub param_len : List ℕ → ℕ
param_len (_ ∷ _ ∷ _ ∷ len_hi ∷ len_lo ∷ []) = len_hi * 256 + len_lo
param_len _ = 0

module _ {S X : Type 0} (stream : Stream S X) where
  abbrev pub write : List ℕ → Io S SocketError (Unit {0})
  write bytes s = let (r, s') = stream.write_all response_timeout bytes s in (settle r, s')

  abbrev pub read : ℕ → Io S SocketError (List ℕ)
  read k s = let (r, s') = stream.read_exact response_timeout k s in (settle r, s')

  unfoldable pub send_and_receive_pdu : List ℕ → Io S SocketError (List ℕ)
  unfolding param_len
  send_and_receive_pdu request = do
    _ ← write request
    header ← read pdu_header_len
    body ← read (param_len header)
    lift (Prelude.ok (header ++ body))
