-- ===== src/UnitTests/Public.antt =====
-- The tests of src/public.rs.
use bluesdp.Prelude.{
  ℕ, List, [], ◌∷◌, Bool, true, false, ◌&&◌, ◌||◌, ◌==◌, ==_iff, ap, ◌>>=◌, Option, some, Result,
  ok, err,
}
use bluesdp.Prelude.Text.{String}
use bluesdp.Prelude.Equality.{Eq, nat_eq, optional_eq}
use bluesdp.Nom.{Nom}
use bluesdp.Buf.{Buf}
use bluesdp.Transport.Live.{Bluer}
use bluesdp.Public
use bluesdp.Public.{
  Uuid16, pbap, SdpError, invalid_address, connect, decode, sdp_error_text, query_rfcomm_channel,
}
use bluesdp.UnitTests.Outcome.{Outcome, assert, assert_eq, assert_ne, or_return}
use bluesdp.UnitTests.Hex.{codes}

-- The derived `PartialEq` of `Uuid16`.
instance abbrev pub uuid16_eq : Eq Uuid16
uuid16_eq = record {
  eq = λ a b. a.value == b.value;
  eq_iff = λ a b. (
    λ h. ap (λ v. record { value = v }) ((==_iff a.value b.value).0 h),
    λ h. (==_iff a.value b.value).1 (ap (λ (u : Uuid16). u.value) h),
  );
}

-- `str::contains`
unfoldable pub starts_with : List ℕ → List ℕ → Bool
starts_with text [] = true
starts_with [] (c ∷ cs) = false
starts_with (d ∷ text) (c ∷ cs) = d == c && starts_with text cs

unfoldable pub contains_codes : List ℕ → List ℕ → Bool
unfolding starts_with
contains_codes [] pattern_codes = starts_with [] pattern_codes
contains_codes (c ∷ text) pattern_codes =
    starts_with (c ∷ text) pattern_codes || contains_codes text pattern_codes

abbrev pub contains : String → String → Bool
contains text part = contains_codes (codes text) (codes part)

abbrev pub uuid16_pbap_constant_matches_assigned_number : Outcome (Unit {0})
uuid16_pbap_constant_matches_assigned_number = assert_eq pbap (record { value = 0x112f })

abbrev pub uuid16_map_constant_matches_assigned_number : Outcome (Unit {0})
uuid16_map_constant_matches_assigned_number = assert_eq Public.map (record { value = 0x1132 })

abbrev pub uuid16_values_are_distinguishable : Outcome (Unit {0})
uuid16_values_are_distinguishable = assert_ne pbap Public.map

abbrev pub sdp_error_invalid_address_message_is_descriptive : Outcome (Unit {0})
sdp_error_invalid_address_message_is_descriptive =
    let message = sdp_error_text (invalid_address "bad") in
    assert (contains message "invalid Bluetooth address")

abbrev pub sdp_error_connect_message_is_descriptive : Outcome (Unit {0})
sdp_error_connect_message_is_descriptive =
    let message = sdp_error_text (connect "no route") in
    assert (contains message "failed to connect")

abbrev pub sdp_error_decode_message_is_descriptive : Outcome (Unit {0})
sdp_error_decode_message_is_descriptive =
    let message = sdp_error_text (decode "truncated") in
    assert (contains message "failed to decode")

-- `matches!(result, Err(SdpError::InvalidAddress(_)))`
abbrev is_invalid_address : Result SdpError (Option ℕ) → Bool
is_invalid_address (err (invalid_address _)) = true
is_invalid_address _ = false

module _ {E B F W H Address SocketAddr Invalid X : Type 0} (n : Nom E B) (b : Buf F)
    (u : Bluer W H Address SocketAddr Invalid X) (fuel : ℕ) (w : W) where
  abbrev pub query_rfcomm_channel_rejects_invalid_address : Outcome (Unit {0})
  query_rfcomm_channel_rejects_invalid_address =
      let (result, _) = query_rfcomm_channel n b u fuel "not-a-bluetooth-address" pbap w in
      assert (is_invalid_address result)

  abbrev pub query_rfcomm_channel_rejects_empty_address : Outcome (Unit {0})
  query_rfcomm_channel_rejects_empty_address =
      let (result, _) = query_rfcomm_channel n b u fuel "" Public.map w in
      assert (is_invalid_address result)

-- The two tests that are ignored unless a device is there. `var` is what
-- `std::env::var("BLUESDP_TEST_DEVICE_ADDR")` returns.
abbrev pub test_device_addr : {V : Type 0} → Result V String → String
test_device_addr (ok addr) = addr
test_device_addr _ = "AA:BB:CC:DD:EE:FF"

module _ {E B F W H Address SocketAddr Invalid X V : Type 0} (n : Nom E B) (b : Buf F)
    (u : Bluer W H Address SocketAddr Invalid X) (fuel : ℕ) (var : Result V String) (w : W) where
  abbrev pub query_rfcomm_channel_finds_pbap_on_real_device : Outcome (Unit {0})
  query_rfcomm_channel_finds_pbap_on_real_device =
      let (result, _) = query_rfcomm_channel n b u fuel (test_device_addr var) pbap w in
      or_return "query_rfcomm_channel failed: " sdp_error_text result >>= λ channel.
      assert_eq channel (some 13)

  abbrev pub query_rfcomm_channel_finds_map_on_real_device : Outcome (Unit {0})
  query_rfcomm_channel_finds_map_on_real_device =
      let (result, _) = query_rfcomm_channel n b u fuel (test_device_addr var) Public.map w in
      or_return "query_rfcomm_channel failed: " sdp_error_text result >>= λ channel.
      assert_eq channel (some 2)
