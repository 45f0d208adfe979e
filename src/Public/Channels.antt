-- ===== src/Public/Channels.antt =====
-- The channel that `query_rfcomm_channel` returns, whatever the device does.
use bluesdp.Prelude.{ℕ, ◌≤◌, ◌≡◌, ap, sym, List, [], ◌++◌, some, ok, map_err, map_err-eq-ok}
use bluesdp.Prelude.Text.{String}
use bluesdp.Nom.{Nom, IsLawful}
use bluesdp.Buf.{Buf}
use bluesdp.Io.{lift, >>=-eq-ok, Stream}
use bluesdp.Codec.Element.{DataElement}
use bluesdp.Codec.Element.Grammar.{Encodes}
use bluesdp.Codec.Response.{AttributeList}
use bluesdp.Codec.Response.Records.{IsResponse}
use bluesdp.Codec.Extract.Search.{FirstChannel-le}
use bluesdp.Transport.Connect.{RetriesExhausted}
use bluesdp.Transport.Session.{find_rfcomm_channel}
use bluesdp.Transport.Session.Answer.{FirstRecord, here, there, channel_of-eq-some_iff}
use bluesdp.Transport.Session.Steps.{Loop, Reach, Ends, no_page, stuck, answered}
use bluesdp.Transport.Session.Steps.Decides.{find_rfcomm_channel-Ends}
use bluesdp.Transport.Live.{Bluer, connect_sdp}
use bluesdp.Public.{
  Uuid16, SdpError, invalid_address, connect, from_query_error, retries_exhausted_text,
  query_rfcomm_channel, map_err_io,
}

-- A channel is a `u8`.
FirstRecord-le : {lists : List AttributeList} {c : ℕ} → FirstRecord lists c → c ≤ 255
FirstRecord-le (here list lists (stack, attribute, first)) = FirstChannel-le first
FirstRecord-le (there list absent others) = FirstRecord-le others

module _ {E B F S X : Type 0} (n : Nom E B) (b : Buf F) (stream : Stream S X) (service_uuid16 : ℕ)
    (s : S) (c : ℕ) where
  -- The device ended a sequence of pages, and their attribute bytes start with a response in which
  -- the first record with a channel has this one.
  pub record IsAnswered : Type 0 where
    pub rounds : ℕ
    pub loop : Loop S
    pub reached : Reach n b stream service_uuid16 s rounds loop
    pub ended : loop.continuation_state ≡ []
    pub outer : DataElement
    pub lists : List AttributeList
    pub front : List ℕ
    pub rest : List ℕ
    pub whole : loop.attribute_bytes ≡ front ++ rest
    pub encoded : Encodes front outer
    pub shaped : IsResponse outer lists
    pub found : FirstRecord lists c
    pub byte : c ≤ 255

  Ends-IsAnswered :
      IsLawful n → (s' : S) → Ends n b stream service_uuid16 s (ok (some c)) s' → IsAnswered
  Ends-IsAnswered lawful s' (no_page e unfetched same) = cc
  Ends-IsAnswered lawful s' (stuck k l e reach refused same) = cc
  Ends-IsAnswered lawful s' (answered k l reach done same at_end) =
      let (outer, lists, front, rest, whole, derived, shaped, first) =
        (channel_of-eq-some_iff n lawful l.attribute_bytes c).0 (sym same) in
      record {
        rounds = k;
        loop = l;
        reached = reach;
        ended = done;
        outer = outer;
        lists = lists;
        front = front;
        rest = rest;
        whole = whole;
        encoded = derived;
        shaped = shaped;
        found = first;
        byte = FirstRecord-le first;
      }

module _ {E B F W H Address SocketAddr Invalid X : Type 0} (n : Nom E B) (lawful : IsLawful n)
    (b : Buf F) (u : Bluer W H Address SocketAddr Invalid X) (fuel : ℕ) (addr : String)
    (uuid : Uuid16) (w : W) where
  -- If the query returns a channel then, whatever the device sent, the address parsed, an attempt
  -- connected, and the device's pages came to an end; their attribute bytes start with a response
  -- whose first record with a channel has the one returned, which is at most 255.
  pub query_rfcomm_channel-IsAnswered :
      (c : ℕ)
      → (query_rfcomm_channel n b u fuel addr uuid w).0 ≡ ok (some c)
      → (address : Address) × (handle : H) × (u.parse addr ≡ ok address)
        × ((connect_sdp u address w).0 ≡ ok handle)
        × IsAnswered n b (u.stream handle) uuid.value (connect_sdp u address w).1 c
  unfolding query_rfcomm_channel
  query_rfcomm_channel-IsAnswered c h =
      let invalid : Invalid → SdpError = λ i. invalid_address (u.invalid_to_string i) in
      let refused : RetriesExhausted → SdpError = λ d. connect (retries_exhausted_text d) in
      let w₂ = (query_rfcomm_channel n b u fuel addr uuid w).1 in
      let (address, parsed, h₁) =
        >>=-eq-ok (lift (map_err invalid (u.parse addr))) _ w w₂ (ap (λ r. (r, w₂)) h) in
      let (handle, connected, h₂) =
        >>=-eq-ok (map_err_io refused (connect_sdp u address)) _ w w₂ h₁ in
      let w₁ = (connect_sdp u address w).1 in
      let q = find_rfcomm_channel n b (u.stream handle) uuid.value fuel w₁ in
      let returned : q.0 ≡ ok (some c) = map_err-eq-ok from_query_error q.0 (ap (λ p. p.0) h₂) in
      let ends =
        (find_rfcomm_channel-Ends n b (u.stream handle) uuid.value lawful w₁ (ok (some c)) q.1).0
          (fuel, ap (λ r. (r, q.1)) returned, λ p. cc) in
      (
        address,
        handle,
        map_err-eq-ok invalid (u.parse addr) parsed,
        map_err-eq-ok refused (connect_sdp u address w).0 connected,
        Ends-IsAnswered n b (u.stream handle) uuid.value w₁ c lawful q.1 ends,
      )
