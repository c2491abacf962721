-- ===== src/VoiceServer.antt =====
-- server/voice/core/src/lib.rs: the voice server, its registry of channels and its requests.
-- A channel is its port and the name of its forwarder, whose state stands in `rooms`. A request to a
-- forwarder that has left its loop fails. A port goes back when the channel leaves the registry: no
-- other handle of the channel is alive then.
pub mod Requests
pub mod Ops
pub mod Assign
pub mod Crashed
mod Examples
use voices.Common.{
  ℕ, suc, Bool, true, false, Option, none, some, List, [], ◌∷◌, String, Map, lookup, insert, remove,
}
use voices.Net.{IpAddr, SocketAddr}
use voices.Ports.{Ports, PortRef}
use voices.Ports
use voices.Forwarder.Loop.{Room, Status, running, ended, crashed, fresh}

pub record Channel : Type 0 where
  pub channel_ctl : ℕ
  pub port : PortRef

pub record VoiceServer : Type 0 where
  pub host_addr : IpAddr
  pub ports : Ports
  pub channels : Map Channel
  -- the forwarders that were spawned, and the name of the next one
  pub rooms : Map Room
  pub next_ctl : ℕ

-- `VoiceServerImpl::new`
pub new : IpAddr → Ports → VoiceServer
new host_addr ports = record {
  host_addr = host_addr;
  ports = ports;
  channels = [];
  rooms = [];
  next_ctl = 0;
}

abbrev pub is_open : Option Room → Bool
is_open none = false
is_open (some m) = elim m.status [ running ↦ true | _ ↦ false ]

-- `Channel::healthy`: the receiving end of the control channel is alive.
unfoldable pub healthy : VoiceServer → Channel → Bool
healthy s c = is_open (lookup c.channel_ctl s.rooms)

-- `Channel::new` on a port: the socket is bound, or the port goes back.
unfoldable pub open_channel : ℕ → Bool → ℕ → PortRef → VoiceServer → Option Channel × VoiceServer
open_channel now true id port s =
    let c : Channel = record { channel_ctl = s.next_ctl; port = port } in
    (
      some c,
      record s {
        channels = insert id c s.channels;
        rooms = insert s.next_ctl (fresh now) s.rooms;
        next_ctl = suc s.next_ctl;
      },
    )
open_channel now false id port s = (none, record s { ports = Ports.drop port s.ports })

abbrev pub with_port :
    ℕ → Bool → ℕ → VoiceServer → Option PortRef × Ports → Option Channel × VoiceServer
with_port now bound id s (none, ports) = (none, record s { ports = ports })
with_port now bound id s (some port, ports) =
    open_channel now bound id port (record s { ports = ports })

-- The entry of the registry, or a new channel.
unfoldable pub assign_entry :
    ℕ → Bool → ℕ → VoiceServer → Option Channel → Option Channel × VoiceServer
unfolding open_channel
assign_entry now bound id s (some c) = (some c, s)
assign_entry now bound id s none = with_port now bound id s (Ports.get s.ports)

-- `assign_channel`; `bound` says whether the UDP socket can be bound. `none` is the error.
unfoldable pub assign_channel : ℕ → Bool → ℕ → VoiceServer → Option Channel × VoiceServer
unfolding assign_entry
assign_channel now bound id s = assign_entry now bound id s (lookup id s.channels)

abbrev pub if_healthy : VoiceServer → Option Channel → Option Channel
if_healthy s none = none
if_healthy s (some c) = elim (healthy s c) [ true ↦ some c | false ↦ none ]

-- `get_channel`
unfoldable pub get_channel : ℕ → VoiceServer → Option Channel
unfolding healthy
get_channel id s = if_healthy s (lookup id s.channels)

abbrev drop_port : Option Channel → Ports → Ports
drop_port none ports = ports
drop_port (some c) ports = Ports.drop c.port ports

-- The cleanup task, on the message that a forwarder sends when it leaves its loop.
unfoldable pub cleanup : ℕ → VoiceServer → VoiceServer
cleanup id s = record s {
  channels = remove id s.channels;
  ports = drop_port (lookup id s.channels) s.ports;
}
