-- ===== src/UnitTests/Live.antt =====
-- The tests of src/transport/live.rs, which are ignored unless a device is there. `var` is what
-- `std::env::var("BLUESDP_TEST_DEVICE_ADDR")` returns, `fuel` that of the continuation loop.
use bluesdp.Prelude.{ℕ, ◌>>=◌, Option, some, Result, ok}
use bluesdp.Prelude.Text.{String}
use bluesdp.Prelude.Equality.{nat_eq, optional_eq}
use bluesdp.Nom.{Nom}
use bluesdp.Buf.{Buf}
use bluesdp.Io
use bluesdp.Io.{Io, lift}
use bluesdp.Transport.Session.{find_rfcomm_channel}
use bluesdp.Transport.Live.{Bluer, connect_sdp}
use bluesdp.Public.{query_error_text, retries_exhausted_text}
use bluesdp.UnitTests.Outcome.{Outcome, Stop, assert_eq, or_return}

abbrev pub uuid_pbap : ℕ
uuid_pbap = 0x112f

abbrev pub uuid_map : ℕ
uuid_map = 0x1132

abbrev pub test_device_addr : {V : Type 0} → Result V String → String
test_device_addr (ok addr) = addr
test_device_addr _ = "AA:BB:CC:DD:EE:FF"

module _ {E B F W H Address SocketAddr Invalid X V : Type 0} (n : Nom E B) (b : Buf F)
    (u : Bluer W H Address SocketAddr Invalid X) (fuel : ℕ) (var : Result V String) (w : W) where
  -- The part that both tests repeat, for a service.
  abbrev channel_on_device : ℕ → Io W Stop (Option ℕ)
  channel_on_device service_uuid16 =
      Io.◌>>=◌
        (lift
          (or_return "invalid test address: " u.invalid_to_string (u.parse (test_device_addr var))))
        λ addr.
          Io.◌>>=◌
            (λ w₀.
              let (r, w₁) = connect_sdp u addr w₀ in
              (or_return "connect_sdp failed: " retries_exhausted_text r, w₁))
            λ handle w₁.
              let (r, w₂) = find_rfcomm_channel n b (u.stream handle) service_uuid16 fuel w₁ in
              (or_return "find_rfcomm_channel failed: " query_error_text r, w₂)

  abbrev pub finds_pbap_channel_on_real_device : Outcome (Unit {0})
  finds_pbap_channel_on_real_device =
      (channel_on_device uuid_pbap w).0 >>= λ channel. assert_eq channel (some 13)

  abbrev pub finds_map_channel_on_real_device : Outcome (Unit {0})
  finds_map_channel_on_real_device =
      (channel_on_device uuid_map w).0 >>= λ channel. assert_eq channel (some 2)
