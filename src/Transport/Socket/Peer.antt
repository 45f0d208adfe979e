-- ===== src/Transport/Socket/Peer.antt =====
-- An exchange with a peer that answers.
use bluesdp.Prelude.{ℕ, ◌≡◌, refl, ap, sym, ◌∙◌, List, [], ◌∷◌, ◌++◌, ok, length}
use bluesdp.Io.{Stream}
use bluesdp.Transport.Socket.{response_timeout, param_len, send_and_receive_pdu}
use bluesdp.Transport.Socket.Pdu.{IsPdu, send_and_receive_pdu_steps}

-- A connected stream whose peer sends an answer for each request that it is sent, within the
-- timeout: `pending` is sent and not yet read, `answers` are those still to come, and `requests`
-- is what it was sent.
pub record Peer {S X : Type 0} (stream : Stream S X) : Type 0 where
  pub pending : S → List ℕ
  pub answers : S → List (List ℕ)
  pub requests : S → List (List ℕ)
  pub writes :
      (d : ℕ) (bytes : List ℕ) (s : S) (answer : List ℕ) (more : List (List ℕ))
      → answers s ≡ answer ∷ more
      → (s' : S) × (stream.write_all d bytes s ≡ (ok (ok tt), s'))
        × (pending s' ≡ pending s ++ answer)
        × (answers s' ≡ more)
        × (requests s' ≡ requests s ++ bytes ∷ [])
  pub reads :
      (d k : ℕ) (s : S) (bytes more : List ℕ)
      → pending s ≡ bytes ++ more
      → length bytes ≡ k
      → (s' : S) × (stream.read_exact d k s ≡ (ok (ok bytes), s'))
        × (pending s' ≡ more)
        × (answers s' ≡ answers s)
        × (requests s' ≡ requests s)

module _ {S X : Type 0} (stream : Stream S X) (peer : Peer stream) where
  open peer use {pending, answers, requests, writes, reads}

  -- If a PDU is at the front of what is pending after the write, the exchange returns it and
  -- leaves the bytes behind it.
  pub exchange :
      (request : List ℕ) (s : S) (answer pdu left : List ℕ) (more : List (List ℕ))
      → answers s ≡ answer ∷ more
      → pending s ++ answer ≡ pdu ++ left
      → IsPdu pdu
      → (s' : S) × (send_and_receive_pdu stream request s ≡ (ok pdu, s'))
        × (pending s' ≡ left)
        × (answers s' ≡ more)
        × (requests s' ≡ requests s ++ request ∷ [])
  unfolding param_len
  exchange request s answer pdu left more queued front valid =
      let header = valid.p ∷ valid.t₁ ∷ valid.t₂ ∷ valid.l₁ ∷ valid.l₂ ∷ [] in
      let (s₁, wrote, p₁, a₁, q₁) = writes response_timeout request s answer more queued in
      let begins : pending s₁ ≡ header ++ (valid.body ++ left) = p₁ ∙ front ∙ rw valid.whole in
      let (s₂, got, p₂, a₂, q₂) =
        reads response_timeout 5 s₁ header (valid.body ++ left) begins refl in
      let (s₃, rest, p₃, a₃, q₃) = reads response_timeout _ s₂ valid.body left p₂ valid.size in
      (
        s₃,
        send_and_receive_pdu_steps stream request header valid.body s s₁ s₂ s₃ wrote got rest
            ∙ ap (λ bytes. (ok bytes, s₃)) (sym valid.whole),
        p₃,
        a₃ ∙ a₂ ∙ a₁,
        q₃ ∙ q₂ ∙ q₁,
      )
