-- ===== src/Transport/Live.antt =====
-- src/transport/live.rs: the connection to a device's SDP server, over what the program takes from
-- the crate bluer, as a parameter.
use bluesdp.Prelude.{ℕ, Result}
use bluesdp.Prelude.Text.{String}
use bluesdp.Io.{Io, Stream}
use bluesdp.Transport.Connect.{RetriesExhausted, connect_with_retry}

-- `W` is the state of all that lies outside the program, and `H` a handle of a connected stream.
pub record Bluer (W H Address SocketAddr Invalid X : Type 0) : Type 0 where
  -- `str::parse::<Address>`, and `Display` of its error
  pub parse : String → Result Invalid Address
  pub invalid_to_string : Invalid → String
  -- `SocketAddr::new(addr, AddressType::BrEdr, psm)`
  pub br_edr_socket_addr : Address → ℕ → SocketAddr
  -- `l2cap::Stream::connect(addr).await`
  pub connect : SocketAddr → Io W X H
  pub stream : H → Stream W X
  -- `tokio::time::sleep(d).await`, in milliseconds
  pub sleep : ℕ → W → W

abbrev pub sdp_psm : ℕ
sdp_psm = 1

module _ {W H Address SocketAddr Invalid X : Type 0}
    (u : Bluer W H Address SocketAddr Invalid X) where
  unfoldable pub connect_sdp : Address → Io W RetriesExhausted H
  connect_sdp addr =
      let socket_addr = u.br_edr_socket_addr addr sdp_psm in
      connect_with_retry u.sleep (u.connect socket_addr)
