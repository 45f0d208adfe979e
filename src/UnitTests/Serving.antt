-- ===== src/UnitTests/Serving.antt =====
-- The server task of the paging test in src/transport/session.rs, for any pages, with a query at
-- the other end of a duplex stream.
pub mod Pages
use bluesdp.Prelude.{
  ℕ, ◌+◌, ◌*◌, ◌/◌, ◌%◌, ◌≤◌, ◌≡◌, refl, sym, ap, ◌∙◌, List, [], ◌∷◌, ◌++◌, append-nil, arith,
  Option, ok, length, subst,
}
use bluesdp.Codec.Encode.Layout.{body_bytes, pdu_bytes}
use bluesdp.Transport.Socket.{response_timeout, param_len, send_and_receive_pdu}
use bluesdp.Transport.Socket.Pdu.{IsPdu, send_and_receive_pdu_steps}
use bluesdp.Transport.Session.{request_for}
use bluesdp.Transport.Session.Server.{
  continuation_state_from_request_body, continuation_state_from_request_body_lem, state_of,
}
use bluesdp.UnitTests.Duplex.{Task, ended, ◌>>=◌, reads, writes, Runtime, IsDuplex}
use bluesdp.UnitTests.Session.{serves_and_sees, push_if_some}

module _ {X J S : Type 0} (rt : Runtime X J (List (List ℕ)) S) (law : IsDuplex rt)
    (capacity : ℕ) where
  open law use {At, task_reads, task_writes, client_writes, client_reads}

  -- The task has these pages to send and has seen these states; the client has bytes to read.
  abbrev pub Serving : List (List ℕ) → List (List ℕ) → List ℕ → S → Type 0
  Serving pdus seen = At capacity (serves_and_sees rt.io_to_string pdus seen) []

  module _ (pdu : List ℕ) (pdus seen : List (List ℕ)) (s : S) where
    -- The task behind its second read, and behind its first.
    abbrev got_body : List ℕ → Task X (List (List ℕ))
    got_body body = writes rt.io_to_string "server write failed: " pdu >>= λ _.
        serves_and_sees rt.io_to_string pdus
          (push_if_some seen (continuation_state_from_request_body body))

    abbrev got_header : List ℕ → Task X (List (List ℕ))
    got_header header =
        reads rt.io_to_string "server body read failed: " (param_len header) >>= got_body

    -- A request of a header and its body is answered by the next page.
    answers_request :
        (header body : List ℕ)
        → length header ≡ 5
        → length body ≡ param_len header
        → length pdu ≤ capacity
        → At capacity (serves_and_sees rt.io_to_string (pdu ∷ pdus) seen) (header ++ body) [] s
        → Serving pdus (push_if_some seen (continuation_state_from_request_body body)) pdu s
    answers_request header body five size room at =
        let at_body = task_reads capacity 5 header body [] _ s five at in
        let whole : At capacity (got_header header) (body ++ []) [] s = rw append-nil at_body in
        let at_write = task_reads capacity (param_len header) body [] [] _ s size whole in
        task_writes capacity pdu [] [] _ s room at_write

    -- A query's request is such a one, and its state is what the task sees.
    answers_query :
        (t u : ℕ) (state : List ℕ)
        → length state ≤ 255
        → length pdu ≤ capacity
        → At capacity
            (serves_and_sees rt.io_to_string (pdu ∷ pdus) seen)
            (pdu_bytes (request_for t u state))
            []
            s
        → Serving pdus (push_if_some seen (state_of state)) pdu s
    unfolding param_len
    answers_query t u state short room at =
        let body = body_bytes (request_for t u state) in
        let header =
          6 ∷ (t / 256 % 256) ∷ (t % 256) ∷ (length body / 256 % 256) ∷ (length body % 256) ∷ [] in
        subst (λ o. Serving pdus (push_if_some seen o) pdu s)
          (continuation_state_from_request_body_lem t u state)
          (answers_request header body refl (omega arith) room at)

  -- An exchange of a query with the task, over a stream that has room for the request, which takes
  -- at most 275 bytes, and for the page.
  pub exchanged :
      (pdu : List ℕ) (pdus seen : List (List ℕ)) (t u : ℕ) (state : List ℕ) (s : S)
      → IsPdu pdu
      → length state ≤ 255
      → 275 ≤ capacity
      → length pdu ≤ capacity
      → Serving (pdu ∷ pdus) seen [] s
      → (s' : S) × (send_and_receive_pdu rt.client (pdu_bytes (request_for t u state)) s
          ≡ (ok pdu, s'))
        × Serving pdus (push_if_some seen (state_of state)) [] s'
  unfolding param_len
  exchanged pdu pdus seen t u state s valid short large room at =
      let header = valid.p ∷ valid.t₁ ∷ valid.t₂ ∷ valid.l₁ ∷ valid.l₂ ∷ [] in
      let request = pdu_bytes (request_for t u state) in
      let after = serves_and_sees rt.io_to_string pdus (push_if_some seen (state_of state)) in
      let fits : length request ≤ capacity = omega arith in
      let (s₁, wrote, at₁) = client_writes capacity response_timeout _ request [] [] s fits at in
      let answered : At capacity after [] (header ++ valid.body) s₁ =
        rw (← valid.whole) (answers_query pdu pdus seen s₁ t u state short room at₁) in
      let (s₂, got, at₂) =
        client_reads capacity response_timeout 5 after header valid.body [] s₁ refl answered in
      let left : At capacity after [] (valid.body ++ []) s₂ = rw append-nil at₂ in
      let (s₃, rest, at₃) =
        client_reads capacity response_timeout (param_len header) after valid.body [] [] s₂
          valid.size left in
      (
        s₃,
        send_and_receive_pdu_steps rt.client request header valid.body s s₁ s₂ s₃ wrote got rest
            ∙ ap (λ bytes. (ok bytes, s₃)) (sym valid.whole),
        at₃,
      )
