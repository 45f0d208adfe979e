-- ===== src/Transport/Session/Steps/Decides.antt =====
-- `find_rfcomm_channel` against the state machine.
use bluesdp.Prelude.{
  ℕ, zero, suc, ◌+◌, ◌-◌, ◌≤◌, ◌≡◌, ◌≢◌, ◌↔◌, subst, refl, sym, ap, ◌∙◌, List, [], ◌∷◌, ◌++◌, arith,
  Result, ok, err, out_of_fuel, Option, map_err, find_map, >>=-ne-out_of_fuel,
}
use bluesdp.Nom.{Nom, IsLawful}
use bluesdp.Buf.{Buf}
use bluesdp.Io.{Io, ◌>>=◌, continue, continue-lift, lift, >>=_first, Stream}
use bluesdp.Codec.Response.{RawServiceSearchAttributeResponse, decode_attribute_lists}
use bluesdp.Codec.Response.Total.{decode_attribute_lists-total}
use bluesdp.Codec.Extract.{rfcomm_channel}
use bluesdp.Transport.Session.{
  QueryError, decode, next_transaction, fetch_page, fetch_more, find_rfcomm_channel,
}
use bluesdp.Transport.Session.Query.{channel_of}
use bluesdp.Transport.Session.Steps.{
  Loop, first, page, Reach, start, next, Stuck, fails, Ends, no_page, stuck, answered,
}

module _ {E B F S X : Type 0} (n : Nom E B) (b : Buf F) (stream : Stream S X)
    (service_uuid16 : ℕ) where
  abbrev pages : ℕ → Loop S → Result QueryError (List ℕ) × S
  pages fuel l =
      fetch_more n b stream service_uuid16 fuel l.transaction_id l.attribute_bytes
        l.continuation_state l.outside

  -- What follows the loop.
  abbrev answer : List ℕ → Io S QueryError (Option ℕ)
  answer attribute_bytes =
      lift (map_err (λ _. decode) (decode_attribute_lists n attribute_bytes)) >>= λ (_, lists).
      lift (ok (find_map rfcomm_channel lists))

  answer_lem : (bytes : List ℕ) (s : S) → answer bytes s ≡ (channel_of n bytes, s)
  answer_lem bytes =
      continue-lift (map_err (λ _. decode) (decode_attribute_lists n bytes))
        (λ (_, lists). ok (find_map rfcomm_channel lists))

  -- The ends of the loop.
  data LoopEnds (s : S) (r : Result QueryError (List ℕ)) (s' : S) : Type 0 where
    failed :
        (k : ℕ) (l : Loop S) (e : QueryError)
        → Reach n b stream service_uuid16 s k l
        → Stuck n b stream service_uuid16 l e s'
        → r ≡ err e
        → LoopEnds s r s'
    fetched :
        (k : ℕ) (l : Loop S)
        → Reach n b stream service_uuid16 s k l
        → l.continuation_state ≡ []
        → r ≡ ok l.attribute_bytes
        → s' ≡ l.outside
        → LoopEnds s r s'

  module _ (s : S) where
    round :
        (k : ℕ) (l : Loop S) (c : ℕ) (state : List ℕ)
        (q : Result QueryError RawServiceSearchAttributeResponse × S)
        (f : RawServiceSearchAttributeResponse → Io S QueryError (List ℕ))
        → l.continuation_state ≡ c ∷ state
        → Reach n b stream service_uuid16 s k l
        → fetch_page n b stream service_uuid16
            (next_transaction l.transaction_id)
            (c ∷ state)
            l.outside
          ≡ q
        → ((raw : RawServiceSearchAttributeResponse) (s' : S)
            → q ≡ (ok raw, s')
            → (f raw s').0 ≢ out_of_fuel
            → LoopEnds s (f raw s').0 (f raw s').1)
        → (continue q.0 f q.1).0 ≢ out_of_fuel
        → LoopEnds s (continue q.0 f q.1).0 (continue q.0 f q.1).1
    round k l c state (ok raw, s') f goes reach e ih h = ih raw s' refl h
    round k l c state (err d, s') f goes reach e ih h =
        failed k l d reach (fails c state goes e) refl
    round k l c state (out_of_fuel, s') f goes reach e ih h = absurd (h refl)

    fetch_more_ends :
        (fuel k t : ℕ) (acc state : List ℕ) (o : S)
        → Reach n b stream service_uuid16 s k (record {
          transaction_id = t;
          attribute_bytes = acc;
          continuation_state = state;
          outside = o;
        })
        → (fetch_more n b stream service_uuid16 fuel t acc state o).0 ≢ out_of_fuel
        → LoopEnds s
            (fetch_more n b stream service_uuid16 fuel t acc state o).0
            (fetch_more n b stream service_uuid16 fuel t acc state o).1
    unfolding fetch_more
    fetch_more_ends fuel k t acc [] o reach h = fetched k _ reach refl refl refl
    fetch_more_ends zero k t acc (c ∷ state) o reach h = absurd (h refl)
    fetch_more_ends (suc fuel) k t acc (c ∷ state) o reach h =
        round k _ c state (fetch_page n b stream service_uuid16 (next_transaction t) (c ∷ state) o)
          (λ raw.
            fetch_more n b stream service_uuid16 fuel (next_transaction t)
              (acc ++ raw.attribute_bytes) raw.continuation_state)
          refl reach refl
          (λ raw s' e h'.
            fetch_more_ends fuel (suc k) (next_transaction t) (acc ++ raw.attribute_bytes)
              raw.continuation_state s' (next reach (page c state raw s' refl e refl)) h')
          h

    finish :
        (p : Result QueryError (List ℕ) × S)
        → LoopEnds s p.0 p.1
        → Ends n b stream service_uuid16 s (continue p.0 answer p.1).0 (continue p.0 answer p.1).1
    finish (r, s') (failed k l e reach fail same) = rw same (stuck k l e reach fail refl)
    finish (r, s') (fetched k l reach done same at_end) = rw same (
        subst (λ (p : Result QueryError (Option ℕ) × S). Ends n b stream service_uuid16 s p.0 p.1)
          (sym (answer_lem l.attribute_bytes s')) (answered k l reach done refl at_end))

    first_page :
        (fuel : ℕ) (q : Result QueryError RawServiceSearchAttributeResponse × S)
        → fetch_page n b stream service_uuid16 0 [] s ≡ q
        → let after = λ (raw : RawServiceSearchAttributeResponse).
          fetch_more n b stream service_uuid16 fuel 0 raw.attribute_bytes raw.continuation_state
          >>= answer in
          (continue q.0 after q.1).0 ≢ out_of_fuel
          → Ends n b stream service_uuid16 s (continue q.0 after q.1).0 (continue q.0 after q.1).1
    first_page fuel (ok raw, s') e h =
        let loop =
          fetch_more n b stream service_uuid16 fuel 0 raw.attribute_bytes raw.continuation_state in
        finish (loop s') (
          fetch_more_ends fuel 0 0 raw.attribute_bytes raw.continuation_state s'
            (start (first raw s' e refl)) (>>=_first loop answer s' h))
    first_page fuel (err d, s') e h = no_page d e refl
    first_page fuel (out_of_fuel, s') e h = absurd (h refl)

    find_rfcomm_channel_ends :
        (fuel : ℕ) (r : Result QueryError (Option ℕ)) (s' : S)
        → find_rfcomm_channel n b stream service_uuid16 fuel s ≡ (r, s')
        → r ≢ out_of_fuel
        → Ends n b stream service_uuid16 s r s'
    unfolding find_rfcomm_channel
    find_rfcomm_channel_ends fuel r s' found h =
        subst (λ (p : Result QueryError (Option ℕ) × S). Ends n b stream service_uuid16 s p.0 p.1)
          found
          (first_page fuel (fetch_page n b stream service_uuid16 0 [] s) refl
            λ p. h (sym (ap (λ (q : Result QueryError (Option ℕ) × S). q.0) found) ∙ p))

    -- The query, resumed at a loop that it reaches.
    find_from :
        {k : ℕ} {l : Loop S}
        → Reach n b stream service_uuid16 s k l
        → (f more : ℕ) → more ≡ k + f
        → find_rfcomm_channel n b stream service_uuid16 more s
          ≡ continue (pages f l).0 answer (pages f l).1
    unfolding find_rfcomm_channel fetch_more
    find_from (start (first raw s' e same)) f more sum =
        let plain : more ≡ f = omega arith in rw (plain, same, e)
    find_from (next {k} reach (page c state raw s' goes e same)) f more sum =
        find_from reach (suc f) more (omega arith) ∙ rw (goes, same, e)

    Ends_found :
        (r : Result QueryError (Option ℕ)) (s' : S)
        → Ends n b stream service_uuid16 s r s'
        → (fuel : ℕ) × ((more : ℕ)
            → fuel ≤ more
            → find_rfcomm_channel n b stream service_uuid16 more s ≡ (r, s'))
    unfolding find_rfcomm_channel fetch_more
    Ends_found r s' (no_page e unfetched same) = (0, λ more h. rw (unfetched, same))
    Ends_found r s' (stuck k l e reach (fails c state goes unfetched) same) = (
      suc k,
      λ more h.
          find_from reach (suc (more - suc k)) more (omega arith) ∙ rw (goes, unfetched, same),
    )
    Ends_found r s' (answered k l reach done same at_end) = (
      k,
      λ more h.
          find_from reach (more - k) more (omega arith)
          ∙ rw (done, same, at_end) (answer_lem l.attribute_bytes l.outside),
    )

  module _ (lawful : IsLawful n) where
    channel_of-ne-out_of_fuel : (bytes : List ℕ) → channel_of n bytes ≢ out_of_fuel
    channel_of-ne-out_of_fuel bytes =
        >>=-ne-out_of_fuel (map_err (λ _. decode) (decode_attribute_lists n bytes)) _
          (λ p. ground (arith, decode_attribute_lists-total n lawful bytes)) λ _ _ p. cc

    Ends-ne-out_of_fuel :
        (s : S) (r : Result QueryError (Option ℕ)) (s' : S)
        → Ends n b stream service_uuid16 s r s'
        → r ≢ out_of_fuel
    Ends-ne-out_of_fuel s r s' (no_page e unfetched same) p = cc
    Ends-ne-out_of_fuel s r s' (stuck k l e reach fail same) p = cc
    Ends-ne-out_of_fuel s r s' (answered k l reach done same at_end) p =
        channel_of-ne-out_of_fuel l.attribute_bytes (sym same ∙ p)

    -- The query returns a result for some amount of fuel exactly when the state machine ends with
    -- that result and that state outside: in a failed page, or in a page with no continuation
    -- state, where the attribute bytes of all pages in order are decoded.
    pub find_rfcomm_channel-Ends :
        (s : S) (r : Result QueryError (Option ℕ)) (s' : S)
        → ((fuel : ℕ) × (find_rfcomm_channel n b stream service_uuid16 fuel s ≡ (r, s'))
            × (r ≢ out_of_fuel))
          ↔ Ends n b stream service_uuid16 s r s'
    find_rfcomm_channel-Ends s r s' = (
      λ (fuel, found, h). find_rfcomm_channel_ends s fuel r s' found h,
      λ ends.
          let (fuel, enough) = Ends_found s r s' ends in
          (fuel, enough fuel (omega arith), Ends-ne-out_of_fuel s r s' ends),
    )
