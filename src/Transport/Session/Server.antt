-- ===== src/Transport/Session/Server.antt =====
-- The device of the tests in src/transport/session.rs, as far as it reads requests: where it finds
-- the continuation state, and what it then sees of a query.
use mathlib.Core.Option
use bluesdp.Prelude.{
  ◌≤◌, take, take-append, append-nil, ◌*◌, ℕ, zero, suc, ◌+◌, ◌/◌, ◌%◌, ◌≡◌, refl, ap, ◌∙◌, List,
  [], ◌∷◌, arith, Bool, true, false, ◌&&◌, ◌==◌, if◌then◌else◌, Option, none, some, length, leb,
  le→leb, drop, Bool-cases, inl, inr,
}
use bluesdp.Codec.Encode.Layout.{body_bytes, pdu_bytes}
use bluesdp.Transport.Socket.{param_len}
use bluesdp.Transport.Session.{request_for, next_transaction}
use bluesdp.Transport.Session.Pages.{Paged, last, more, requests_from}

-- The `?` on an `Option`.
infixl 5 ◌>>=◌
abbrev ◌>>=◌ : {A C : Type 0} → Option A → (A → Option C) → Option C
none >>= f = none
some a >>= f = f a

-- `w == attribute_id_list_marker`
abbrev is_marker : ℕ → ℕ → ℕ → Bool
is_marker a b c = a == 0x35 && b == 0x05 && c == 0x0a

-- `body.windows(3).position(…)`
unfoldable pub position : List ℕ → Option ℕ
position (a ∷ b ∷ c ∷ xs) =
    let later = position (b ∷ c ∷ xs) in if is_marker a b c then some 0 else Option.map suc later
position _ = none

-- `body.get(i)`
unfoldable pub get_elem? : List ℕ → ℕ → Option ℕ
get_elem? [] i = none
get_elem? (x ∷ xs) zero = some x
get_elem? (x ∷ xs) (suc i) = get_elem? xs i

-- `body.get(i..)`
unfoldable pub get_from : List ℕ → ℕ → Option (List ℕ)
get_from xs i = if leb i (length xs) then some (drop i xs) else none

unfoldable pub continuation_state_from_request_body : List ℕ → Option (List ℕ)
unfolding position get_elem? get_from
continuation_state_from_request_body body = do
  marker_pos ← position body
  let after_attribute_id_list = marker_pos + 3 + 4
  len ← get_elem? body after_attribute_id_list
  if len == 0 then none else get_from body (after_attribute_id_list + 1)

-- What the server should find.
abbrev pub state_of : List ℕ → Option (List ℕ)
state_of [] = none
state_of (c ∷ state) = some (c ∷ state)

found_at : (xs : List ℕ) → position (0xff ∷ 0xff ∷ 0x35 ∷ 0x05 ∷ 0x0a ∷ xs) ≡ some 2
unfolding position
found_at xs = refl

-- No marker ends in 0xff, which the byte count of a request is.
no_marker : (a b : ℕ) → is_marker a b 0xff ≡ false
no_marker a b = elim (Bool-cases (a == 0x35)) [
  | inl p ↦ elim (Bool-cases (b == 0x05)) [ inl q ↦ rw (p, q) | inr q ↦ rw (p, q) ]
  | inr p ↦ rw p
]

skip :
    (a b c : ℕ) (xs : List ℕ)
    → is_marker a b c ≡ false
    → position (a ∷ b ∷ c ∷ xs) ≡ Option.map suc (position (b ∷ c ∷ xs))
unfolding position
skip a b c xs h = rw h

position-body_bytes :
    (t u : ℕ) (state : List ℕ) → position (body_bytes (request_for t u state)) ≡ some 7
position-body_bytes t u state =
    let high = u / 256 % 256 in
    let low = u % 256 in
    let tail = 0x35 ∷ 0x05 ∷ 0x0a ∷ 0 ∷ 0 ∷ 0xff ∷ 0xff ∷ length state ∷ state in
    let found : position (0xff ∷ 0xff ∷ tail) ≡ some 2 =
      found_at (0 ∷ 0 ∷ 0xff ∷ 0xff ∷ length state ∷ state) in
    rw (
      skip 0x35 0x03 0x19 (high ∷ low ∷ 0xff ∷ 0xff ∷ tail) refl,
      skip 0x03 0x19 high (low ∷ 0xff ∷ 0xff ∷ tail) refl,
      skip 0x19 high low (0xff ∷ 0xff ∷ tail) refl,
      skip high low 0xff (0xff ∷ tail) (no_marker high low),
      skip low 0xff 0xff tail (no_marker low 0xff),
      found,
    )

-- In the parameters of any request of a query the server finds the continuation state, whatever
-- the UUID is, and none if it is empty.
pub continuation_state_from_request_body_lem :
    (t u : ℕ) (state : List ℕ)
    → continuation_state_from_request_body (body_bytes (request_for t u state)) ≡ state_of state
unfolding continuation_state_from_request_body
continuation_state_from_request_body_lem t u [] = rw (position-body_bytes t u []) refl
continuation_state_from_request_body_lem t u (c ∷ state) =
    let body = body_bytes (request_for t u (c ∷ state)) in
    let inside : leb 15 (length body) ≡ true = le→leb 15 (length body) (omega arith) in
    let some_length : (length (c ∷ state) == 0) ≡ false = ground arith in
    rw (position-body_bytes t u (c ∷ state), inside, some_length)

-- The body that the server reads behind the five bytes of the header: as much as they announce.
unfoldable pub server_body : List ℕ → List ℕ
unfolding param_len
server_body request = take (param_len (take 5 request)) (drop 5 request)

-- What the server keeps of the requests: the states that it finds, in order.
unfoldable pub server_sees : List (List ℕ) → List (List ℕ)
unfolding server_body
server_sees [] = []
server_sees (request ∷ requests) =
    elim (continuation_state_from_request_body (server_body request)) [
      | none ↦ server_sees requests
      | some blob ↦ blob ∷ server_sees requests
    ]

server_body-pdu_bytes :
    (t u : ℕ) (state : List ℕ)
    → length state ≤ 255
    → server_body (pdu_bytes (request_for t u state)) ≡ body_bytes (request_for t u state)
unfolding server_body param_len
server_body-pdu_bytes t u state short =
    let body = body_bytes (request_for t u state) in
    let announced : length body / 256 % 256 * 256 + length body % 256 ≡ length body = omega arith in
    rw announced (rw append-nil at (take-append body []))

-- What it finds in one request.
found_in :
    (t u : ℕ) (state : List ℕ)
    → length state ≤ 255
    → continuation_state_from_request_body (server_body (pdu_bytes (request_for t u state)))
      ≡ state_of state
found_in t u state short =
    rw (server_body-pdu_bytes t u state short) (continuation_state_from_request_body_lem t u state)

sees_blob :
    (request blob : List ℕ) (requests : List (List ℕ))
    → continuation_state_from_request_body (server_body request) ≡ some blob
    → server_sees (request ∷ requests) ≡ blob ∷ server_sees requests
unfolding server_sees
sees_blob request blob requests h = rw (h, server_sees)

sees_none :
    (request : List ℕ) (requests : List (List ℕ))
    → continuation_state_from_request_body (server_body request) ≡ none
    → server_sees (request ∷ requests) ≡ server_sees requests
unfolding server_sees
sees_none request requests h = rw (h, server_sees)

sees_states :
    (u t : ℕ) {pdus states : List (List ℕ)} {attributes : List ℕ}
    → Paged pdus attributes states
    → server_sees (requests_from u t states) ≡ states
unfolding server_sees
sees_states u t (last pdu raw page done whole) = refl
sees_states u t (more pdu raw c state rest {pdus} {states} page goes pages whole) =
    let short : length (c ∷ state) ≤ 255 = omega (arith, ap length goes, page.short) in
    sees_blob (pdu_bytes (request_for t u (c ∷ state))) (c ∷ state) _
      (found_in t u (c ∷ state) short)
    ∙ ap (λ seen. (c ∷ state) ∷ seen) (sees_states u (next_transaction t) pages)

-- Of the requests for the pages of a response the server of the tests sees the continuation state
-- of each page, once and in the order of the pages, whatever the UUID is.
pub server_sees-Paged :
    (u t : ℕ) {pdus states : List (List ℕ)} {attributes : List ℕ}
    → Paged pdus attributes states
    → server_sees (requests_from u t ([] ∷ states)) ≡ states
server_sees-Paged u t pages =
    sees_none (pdu_bytes (request_for t u [])) _ (found_in t u [] (omega arith))
    ∙ sees_states u (next_transaction t) pages
