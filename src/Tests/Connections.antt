-- ===== src/Tests/Connections.antt =====
-- The theorems on connecting and on single exchanges, at concrete inputs.
use bluesdp.Prelude.{ℕ, ◌≡◌, refl, List, [], ◌∷◌, ◌++◌, ok, err, All, IsByte, arith}
use bluesdp.Nom.Split.{split}
use bluesdp.Transport.Connect.{connect_with_retry, retries_exhausted}
use bluesdp.Transport.Connect.Attempts.{connect_with_retry-succeeds, connect_with_retry-Fails}
use bluesdp.Transport.Socket.Errors.{ExchangeFails, send_and_receive_pdu-eq-err}
use bluesdp.Transport.Socket.{timeout, send_and_receive_pdu}
use bluesdp.Transport.Socket.Pdu.{IsPdu, send_and_receive_pdu-IsPdu}
use bluesdp.Transport.Socket.Peer.{exchange}
use bluesdp.Tests.Device.{
  World, in_memory, in_memory_peer, in_bytes, in_bytes-IsExact, handle, dial_once, rest,
}

abbrev device : ℕ → List ℕ → World
device refusals naps = record {
  refusals = refusals;
  naps = naps;
  pending = [];
  answers = [];
  requests = [];
}

connect_with_retry-succeeds_example :
    connect_with_retry rest dial_once (device 4 [])
    ≡ (ok handle, device 0 (200 ∷ 200 ∷ 200 ∷ 200 ∷ []))
connect_with_retry-succeeds_example =
    connect_with_retry-succeeds rest dial_once 4 (device 4 []) handle (omega arith)
      (λ v p. cc, (λ v p. cc, (λ v p. cc, (λ v p. cc, tt)))) refl

connect_with_retry-Fails_example :
    connect_with_retry rest dial_once (device 7 [])
    ≡ (err retries_exhausted, device 2 (200 ∷ 200 ∷ 200 ∷ 200 ∷ []))
connect_with_retry-Fails_example =
    connect_with_retry-Fails rest dial_once (device 7 [])
      (λ v p. cc, (λ v p. cc, (λ v p. cc, (λ v p. cc, (λ v p. cc, tt)))))

-- A PDU with one byte of parameters.
abbrev pdu : List ℕ
pdu = 7 ∷ 0 ∷ 0 ∷ 0 ∷ 1 ∷ 9 ∷ []

pdu-IsPdu : IsPdu pdu
pdu-IsPdu = record {
  p = 7;
  t₁ = 0;
  t₂ = 0;
  l₁ = 0;
  l₂ = 1;
  body = 9 ∷ [];
  whole = refl;
  size = refl;
}

-- A device that sends the PDU and two bytes more.
abbrev answering : World
answering = record (device 0 []) { answers = (pdu ++ 5 ∷ 6 ∷ []) ∷ [] }

exchange_example :
    (s' : World) × (send_and_receive_pdu in_memory (1 ∷ []) answering ≡ (ok pdu, s'))
    × (s'.pending ≡ 5 ∷ 6 ∷ [])
    × (s'.answers ≡ [])
    × (s'.requests ≡ [] ++ (1 ∷ []) ∷ [])
exchange_example =
    exchange in_memory in_memory_peer (1 ∷ []) answering (pdu ++ 5 ∷ 6 ∷ []) pdu (5 ∷ 6 ∷ []) []
      refl refl pdu-IsPdu

abbrev answered : World
answered = record (device 0 []) { pending = 5 ∷ 6 ∷ []; requests = (1 ∷ []) ∷ [] }

sent : send_and_receive_pdu in_bytes (1 ∷ []) answering ≡ (ok pdu, answered)
unfolding send_and_receive_pdu split
sent = refl

send_and_receive_pdu-IsPdu_example : IsPdu pdu × All IsByte pdu
send_and_receive_pdu-IsPdu_example =
    send_and_receive_pdu-IsPdu in_bytes in_bytes-IsExact (1 ∷ []) answering answered pdu sent

-- The device does not answer.
timed_out : (send_and_receive_pdu in_memory (1 ∷ []) (device 0 [])).0 ≡ err timeout
unfolding send_and_receive_pdu split
timed_out = refl

send_and_receive_pdu-eq-err_example : ExchangeFails in_memory (1 ∷ []) (device 0 []) timeout
send_and_receive_pdu-eq-err_example =
    send_and_receive_pdu-eq-err in_memory (1 ∷ []) (device 0 []) timeout timed_out
