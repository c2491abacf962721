-- ===== src/Net.antt =====
-- Socket addresses as server/voice/core/src/channel/mod.rs compares them, and the messages of
-- server/voice/proto/voice.proto that the voice server handles.
-- An IPv4 address is its 32 bits and an IPv6 address its 128 bits.
pub mod SameAddr
mod Examples
use voices.Common.{ℕ, ◌+◌, ◌*◌, ◌^◌, Bool, ◌&&◌, List, ◌==◌, Option}

pub data IpAddr : Type 0 where
  v4 : ℕ → IpAddr
  v6 : ℕ → IpAddr

pub record SocketAddr : Type 0 where
  pub ip : IpAddr
  pub port : ℕ

-- `Ipv4Addr::to_ipv6_mapped`: `::ffff:a.b.c.d`
abbrev pub to_ipv6_mapped : ℕ → ℕ
to_ipv6_mapped a = 0xffff * 2 ^ 32 + a

unfoldable pub same_ip : IpAddr → IpAddr → Bool
same_ip (v4 l) (v4 r) = l == r
same_ip (v4 l) (v6 r) = to_ipv6_mapped l == r
same_ip (v6 l) (v4 r) = l == to_ipv6_mapped r
same_ip (v6 l) (v6 r) = l == r

-- `Conn::same_addr`
unfoldable pub same_addr : SocketAddr → SocketAddr → Bool
unfolding same_ip
same_addr l r = l.port == r.port && same_ip l.ip r.ip

pub record Voice : Type 0 where
  pub sequence : ℕ
  pub stream_time : ℕ
  pub source_id : ℕ
  pub payload : List ℕ

pub record Ping : Type 0 where
  pub seq : ℕ
  pub recv : ℕ
  pub sent : ℕ
  pub source_id : ℕ

pub record Pong : Type 0 where
  pub seq : ℕ
  pub sent : ℕ
  pub received : ℕ

pub record IpDiscoveryRequest : Type 0 where
  pub uuid : List ℕ
  pub source_id : ℕ

-- The text of the address stands for the address itself.
pub record IpDiscoveryResponse : Type 0 where
  pub ip : IpAddr
  pub port : ℕ

pub data Payload : Type 0 where
  ping : Ping → Payload
  voice : Voice → Payload
  ip_disco : IpDiscoveryRequest → Payload

pub record ClientMessage : Type 0 where
  pub payload : Option Payload

pub data ServerMessage : Type 0 where
  pong : Pong → ServerMessage
  voice : Voice → ServerMessage
  ip_disco : IpDiscoveryResponse → ServerMessage
