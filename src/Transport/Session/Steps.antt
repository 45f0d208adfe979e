-- ===== src/Transport/Session/Steps.antt =====
-- The continuation loop as a state machine, with no fuel: its variables are the state, and a page
-- that is fetched is a step.
pub mod Decides
pub mod Invariant
use bluesdp.Prelude
use bluesdp.Prelude.{
  ℕ, zero, suc, ◌≤◌, ◌≡◌, ◌≢◌, ◌↔◌, refl, sym, ap, ◌∙◌, List, [], ◌∷◌, ◌++◌, arith, Result, ok, err,
  out_of_fuel, Option, map_err, find_map, ok-injective, err-injective,
}
use bluesdp.Nom.{Nom, IsLawful}
use bluesdp.Buf.{Buf}
use bluesdp.Io.{Io, ◌>>=◌, continue, continue-lift, lift, >>=_assoc, Stream}
use bluesdp.Codec.Response.{RawServiceSearchAttributeResponse, decode_attribute_lists}
use bluesdp.Codec.Response.Total.{decode_attribute_lists-total}
use bluesdp.Codec.Extract.{rfcomm_channel}
use bluesdp.Transport.Session.{
  QueryError, decode, next_transaction, fetch_page, fetch_more, find_rfcomm_channel,
}
use bluesdp.Transport.Session.Query.{channel_of}

-- The variables of the loop, and the state outside the program.
pub record Loop (S : Type 0) : Type 0 where
  pub transaction_id : ℕ
  pub attribute_bytes : List ℕ
  pub continuation_state : List ℕ
  pub outside : S

module _ {E B F S X : Type 0} (n : Nom E B) (b : Buf F) (stream : Stream S X)
    (service_uuid16 : ℕ) where
  -- Before the loop: the first page is there.
  pub data Start (s : S) (l : Loop S) : Type 0 where
    first :
        (raw : RawServiceSearchAttributeResponse) (s' : S)
        → fetch_page n b stream service_uuid16 0 [] s ≡ (ok raw, s')
        → l ≡ record {
          transaction_id = 0;
          attribute_bytes = raw.attribute_bytes;
          continuation_state = raw.continuation_state;
          outside = s';
        }
        → Start s l

  -- A round of the loop: the continuation state is not empty, and another page is there.
  pub data Step (l l' : Loop S) : Type 0 where
    page :
        (c : ℕ) (state : List ℕ) (raw : RawServiceSearchAttributeResponse) (s' : S)
        → l.continuation_state ≡ c ∷ state
        → fetch_page n b stream service_uuid16
            (next_transaction l.transaction_id)
            (c ∷ state)
            l.outside
          ≡ (ok raw, s')
        → l' ≡ record {
          transaction_id = next_transaction l.transaction_id;
          attribute_bytes = l.attribute_bytes ++ raw.attribute_bytes;
          continuation_state = raw.continuation_state;
          outside = s';
        }
        → Step l l'

  -- What a query that starts in `s` reaches, with the number of rounds.
  pub data Reach (s : S) : ℕ → Loop S → Type 0 where
    start : {l : Loop S} → Start s l → Reach s 0 l
    next : {k : ℕ} {l l' : Loop S} → Reach s k l → Step l l' → Reach s (suc k) l'

  -- The page that a round asks for fails.
  pub data Stuck (l : Loop S) (e : QueryError) (s' : S) : Type 0 where
    fails :
        (c : ℕ) (state : List ℕ)
        → l.continuation_state ≡ c ∷ state
        → fetch_page n b stream service_uuid16
            (next_transaction l.transaction_id)
            (c ∷ state)
            l.outside
          ≡ (err e, s')
        → Stuck l e s'

  -- The ends of a query: the first page fails, a later one does, or a page has no continuation
  -- state and the attribute bytes are decoded.
  pub data Ends (s : S) (r : Result QueryError (Option ℕ)) (s' : S) : Type 0 where
    no_page :
        (e : QueryError)
        → fetch_page n b stream service_uuid16 0 [] s ≡ (err e, s')
        → r ≡ err e
        → Ends s r s'
    stuck :
        (k : ℕ) (l : Loop S) (e : QueryError) → Reach s k l → Stuck l e s' → r ≡ err e → Ends s r s'
    answered :
        (k : ℕ) (l : Loop S)
        → Reach s k l
        → l.continuation_state ≡ []
        → r ≡ channel_of n l.attribute_bytes
        → s' ≡ l.outside
        → Ends s r s'
