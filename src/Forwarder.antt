-- ===== src/Forwarder.antt =====
-- server/voice/core/src/channel/mod.rs: the forwarder of a channel, with the connection tasks that it
-- has spawned. A task is named by a handle, which stands for the sending ends of its two `mpsc`
-- channels; a request to a task that has stopped fails. A request and its answer are one step: the
-- forwarder waits for the answer. The bounded capacity of the channels is not modelled.
pub mod Tasks
pub mod Control
pub mod Socket
pub mod Loop
pub mod Present
pub mod Panics
pub mod Admission
pub mod Rejoin
pub mod Joining
pub mod Peers
pub mod Idle
mod Examples
use voices.Common.{
  ℕ, suc, ◌+◌, Bool, true, false, Option, none, some, List, [], ◌∷◌, String, Map, lookup, insert,
  remove, keys, values, ◌==◌, ◌&&◌, leb, if◌then◌else◌,
}
use voices.Net.{
  SocketAddr, same_addr, Voice, Ping, IpDiscoveryRequest, IpDiscoveryResponse, ClientMessage,
  Payload, ServerMessage,
}
use voices.Crypto.{Aead}
use voices.Connection.{
  VoiceConnection, Phase, waiting, peered, stopped, ConnectionState, is_waiting, is_peered,
  is_stopped, InternalMsg, ControlRequest, Round, Event, Output, init_response, status_response,
}
use voices.Connection

pub record VoiceControl : Type 0 where
  pub source_id : ℕ
  pub user_name : String
  pub tx : ℕ

pub record Conn : Type 0 where
  pub ctl : VoiceControl
  pub addr : Option SocketAddr

pub record VoiceTask : Type 0 where
  pub src_id : ℕ
  pub client_id : ℕ
  pub handle : ℕ

pub record Forwarder : Type 0 where
  pub connections : Map Conn
  pub client_id_to_src_id : Map ℕ
  pub tasks : List VoiceTask
  -- the spawned tasks, and the handle of the next one
  pub spawned : Map VoiceConnection
  pub next_handle : ℕ

pub record Peer : Type 0 where
  pub id : ℕ
  pub source_id : ℕ
  pub name : String

-- What the random number generator yields for a new connection.
pub record Random : Type 0 where
  pub source_id : ℕ
  pub crypt_key : List ℕ

pub data ChannelCtl : Type 0 where
  open_connection : ℕ → String → Random → ChannelCtl
  establish : ℕ → SocketAddr → ChannelCtl
  leave : ℕ → ChannelCtl
  peers : ChannelCtl
  status : ℕ → ChannelCtl

-- What goes back on the responder.
pub data Reply : Type 0 where
  opened : ℕ → Reply
  established : List ℕ → ℕ → Reply
  left : Reply
  present : List Peer → Reply
  state : ConnectionState → Reply
  peer_not_found : Reply

-- `panicked` ends the forwarder's task; on `failed` the responder is dropped with no answer.
pub data Handled : Type 0 where
  replied : Reply → Handled
  failed : Handled
  panicked : Handled

unfoldable pub new : Forwarder
new = record {
  connections = [];
  client_id_to_src_id = [];
  tasks = [];
  spawned = [];
  next_handle = 0;
}
