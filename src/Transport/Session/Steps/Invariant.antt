-- ===== src/Transport/Session/Steps/Invariant.antt =====
-- What holds of the loop's variables in every round.
use bluesdp.Prelude.{
  ℕ, suc, ◌+◌, ◌*◌, ◌%◌, ◌^◌, ◌≤◌, ◌≡◌, ap, [], ◌∷◌, arith, Result, length, length-append, All,
  All-append, IsByte,
}
use bluesdp.Nom.{Nom, IsLawful}
use bluesdp.Buf.{Buf}
use bluesdp.Io.{Stream, IsExact}
use bluesdp.Codec.Response.{RawServiceSearchAttributeResponse}
use bluesdp.Transport.Session.{QueryError, next_transaction}
use bluesdp.Transport.Session.Received.{fetch_page-IsReceived}
use bluesdp.Transport.Session.Steps.{Loop, Start, first, Step, page, Reach, start, next}

-- The transaction ID counts the rounds, modulo its width; the bytes collected are bytes, of at most
-- `k + 1` pages; and the continuation state fits a request.
pub record Inv {S : Type 0} (k : ℕ) (l : Loop S) : Type 0 where
  pub transaction : l.transaction_id ≡ k % 2 ^ 16
  pub collected : All IsByte l.attribute_bytes
  pub collected_size : length l.attribute_bytes ≤ (k + 1) * 65535
  pub state_bytes : All IsByte l.continuation_state
  pub state_short : length l.continuation_state ≤ 255

module _ {E B F S X : Type 0} (n : Nom E B) (lawful : IsLawful n) (b : Buf F) (stream : Stream S X)
    (exact : IsExact stream) (service_uuid16 : ℕ) where
  Start-Inv : (s : S) (l : Loop S) → Start n b stream service_uuid16 s l → Inv 0 l
  Start-Inv s l (first raw s' e same) =
      let got =
        fetch_page-IsReceived n lawful b stream exact service_uuid16 0 [] s raw
          (ap (λ (p : Result QueryError RawServiceSearchAttributeResponse × S). p.0) e) in
      rw same (record {
        transaction = omega arith;
        collected = got.attributes_bytes;
        collected_size = omega (arith, got.attributes_short);
        state_bytes = got.state_bytes;
        state_short = got.state_short;
      })

  Step-Inv :
      (k : ℕ) (l l' : Loop S) → Step n b stream service_uuid16 l l' → Inv k l → Inv (suc k) l'
  Step-Inv k l l' (page c state raw s' goes e same) inv =
      let t = next_transaction l.transaction_id in
      let got =
        fetch_page-IsReceived n lawful b stream exact service_uuid16 t (c ∷ state) l.outside raw
          (ap (λ (p : Result QueryError RawServiceSearchAttributeResponse × S). p.0) e) in
      rw same (record {
        transaction = omega (arith, inv.transaction);
        collected =
            All-append IsByte l.attribute_bytes raw.attribute_bytes inv.collected
              got.attributes_bytes;
        collected_size = omega (
          arith,
          inv.collected_size,
          got.attributes_short,
          length-append l.attribute_bytes raw.attribute_bytes,
        );
        state_bytes = got.state_bytes;
        state_short = got.state_short;
      })

  -- Over a stream of bytes, in each round of the loop, whatever the peer sends: the transaction ID
  -- is the number of the round modulo 2^16, the collected attributes are bytes, at most 65535 for
  -- each page, and the continuation state is at most 255 bytes, which a request can carry.
  pub Reach-Inv : (s : S) {k : ℕ} {l : Loop S} → Reach n b stream service_uuid16 s k l → Inv k l
  Reach-Inv s (start {l} begins) = Start-Inv s l begins
  Reach-Inv s (next {k} {l} {l'} reach step) = Step-Inv k l l' step (Reach-Inv s reach)
