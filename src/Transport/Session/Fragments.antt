-- ===== src/Transport/Session/Fragments.antt =====
-- A server that cuts the attribute bytes of a response into fragments of its own choice.
use bluesdp.Prelude.{
  ℕ, suc, ◌^◌, ◌+◌, ◌/◌, ◌%◌, ◌≤◌, ◌<◌, ◌≡◌, refl, sym, ap, ◌∙◌, List, [], ◌∷◌, ◌++◌, append-nil,
  arith, length, All, IsU16, be_bytes_16,
}
use bluesdp.Nom.{Nom, IsLawful}
use bluesdp.Buf.{Buf, IsAppending}
use bluesdp.Io.{Stream}
use bluesdp.Codec.Response.{RawServiceSearchAttributeResponse}
use bluesdp.Transport.Socket.Peer.{Peer}
use bluesdp.Transport.Session.{find_rfcomm_channel}
use bluesdp.Transport.Session.Pages.{IsPage, Paged, last, more}
use bluesdp.Transport.Session.Query.{channel_of, find_rfcomm_channel-Paged}

-- A response PDU with these attribute bytes and this continuation state.
abbrev page : ℕ → List ℕ → List ℕ → List ℕ
page t bytes state =
    0x07
    ∷ (be_bytes_16 t
        ++ (be_bytes_16 (3 + length bytes + length state)
            ++ (be_bytes_16 (length bytes) ++ (bytes ++ (length state ∷ state)))))

abbrev raw_of : ℕ → List ℕ → List ℕ → RawServiceSearchAttributeResponse
raw_of t bytes state = record {
  header = record {
    pdu_id = 0x07;
    transaction_id = t;
    parameter_length = 3 + length bytes + length state;
  };
  attribute_bytes = bytes;
  continuation_state = state;
}

page-IsPage :
    (t : ℕ) (bytes state : List ℕ)
    → IsU16 t
    → 3 + length bytes + length state < 2 ^ 16
    → length state ≤ 255
    → IsPage (page t bytes state) (raw_of t bytes state)
page-IsPage t bytes state ht small short = record {
  frame = record {
    t₁ = t / 256 % 256;
    t₂ = t % 256;
    l₁ = (3 + length bytes + length state) / 256 % 256;
    l₂ = (3 + length bytes + length state) % 256;
    a₁ = length bytes / 256 % 256;
    a₂ = length bytes % 256;
    transaction = omega arith;
    parameter = omega arith;
    attribute_size = omega arith;
    whole = rw append-nil refl;
  };
  sized = refl;
  short = short;
}

-- A fragment with the continuation state behind it, which is not empty, and the transaction ID that
-- the server writes.
pub record Fragment : Type 0 where
  pub transaction_id : ℕ
  pub bytes : List ℕ
  pub c : ℕ
  pub state : List ℕ

-- It fits a PDU.
abbrev pub Fits : Fragment → Type 0
Fits f =
    IsU16 f.transaction_id × (4 + length f.bytes + length f.state < 2 ^ 16) × (length f.state ≤ 254)

-- The pages for these fragments and a last one.
abbrev pub pages_of : List Fragment → ℕ → List ℕ → List (List ℕ)
pages_of [] t bytes = page t bytes [] ∷ []
pages_of (f ∷ fs) t bytes = page f.transaction_id f.bytes (f.c ∷ f.state) ∷ pages_of fs t bytes

abbrev pub joined : List Fragment → List ℕ → List ℕ
joined [] bytes = bytes
joined (f ∷ fs) bytes = f.bytes ++ joined fs bytes

abbrev states_of : List Fragment → List (List ℕ)
states_of [] = []
states_of (f ∷ fs) = (f.c ∷ f.state) ∷ states_of fs

pages_of-Paged :
    (fs : List Fragment) (t : ℕ) (bytes : List ℕ)
    → All Fits fs
    → IsU16 t
    → 3 + length bytes < 2 ^ 16
    → Paged (pages_of fs t bytes) (joined fs bytes) (states_of fs)
pages_of-Paged [] t bytes fits ht small =
    last (page t bytes []) (raw_of t bytes [])
      (page-IsPage t bytes [] ht (omega arith) (omega arith)) refl refl
pages_of-Paged (f ∷ fs) t bytes (fit, fits) ht small =
    let state = f.c ∷ f.state in
    more (page f.transaction_id f.bytes state) (raw_of f.transaction_id f.bytes state) f.c f.state
      (joined fs bytes)
      (page-IsPage f.transaction_id f.bytes state fit.0 (omega (arith, fit.1))
        (omega (arith, fit.2)))
      refl (pages_of-Paged fs t bytes fits ht small) refl

pages_of_count :
    (fs : List Fragment) (t : ℕ) (bytes : List ℕ) → length (pages_of fs t bytes) ≡ suc (length fs)
pages_of_count [] t bytes = refl
pages_of_count (f ∷ fs) t bytes = ap suc (pages_of_count fs t bytes)

module _ {E B F S X : Type 0} (n : Nom E B) (lawful : IsLawful n) (b : Buf F)
    (appending : IsAppending b) (stream : Stream S X) (peer : Peer stream)
    (service_uuid16 : ℕ) where
  -- How a server cuts a response does not matter: from two servers that send the same attribute
  -- bytes, in any fragments that fit their PDUs and with any transaction IDs, a query gets the same
  -- result, with fuel for one page behind each fragment but the last.
  pub find_rfcomm_channel-joined :
      (fs gs : List Fragment) (t u : ℕ) (bytes ends : List ℕ) (s s' : S)
      (later later' : List (List ℕ))
      → All Fits fs
      → All Fits gs
      → IsU16 t
      → IsU16 u
      → 3 + length bytes < 2 ^ 16
      → 3 + length ends < 2 ^ 16
      → joined fs bytes ≡ joined gs ends
      → peer.pending s ≡ []
      → peer.pending s' ≡ []
      → peer.answers s ≡ pages_of fs t bytes ++ later
      → peer.answers s' ≡ pages_of gs u ends ++ later'
      → (find_rfcomm_channel n b stream service_uuid16 (length fs) s).0
        ≡ (find_rfcomm_channel n b stream service_uuid16 (length gs) s').0
  find_rfcomm_channel-joined fs gs t u bytes ends s s' later later' fits fits' ht hu small small'
        same idle idle' queued queued' =
      let (_, one, _, _, _) =
        find_rfcomm_channel-Paged n lawful b appending stream peer service_uuid16 (joined fs bytes)
          (pages_of-Paged fs t bytes fits ht small) (length fs) s later idle queued
          (omega (arith, pages_of_count fs t bytes)) in
      let (_, other, _, _, _) =
        find_rfcomm_channel-Paged n lawful b appending stream peer service_uuid16 (joined gs ends)
          (pages_of-Paged gs u ends fits' hu small') (length gs) s' later' idle' queued'
          (omega (arith, pages_of_count gs u ends)) in
      ap (λ p. p.0) one ∙ ap (channel_of n) same ∙ ap (λ p. p.0) (sym other)
