-- ===== src/Session.antt =====
-- server/gateway/src/server/session.rs and server/gateway/src/server/ws.rs: the session of one client
-- at the gateway, its messages (ws-proto/src/lib.rs) and what it holds while the client is in a
-- channel. `receiving` says whether the other end of the outgoing channel is alive: a send fails from
-- the first failure on. What the voice hosts, the channels and the client answer is an input.
pub mod Join
pub mod Run
pub mod Stages
pub mod Modes
pub mod Counts
pub mod Status
pub mod WebSocket
pub mod Protocol
pub mod Release
mod Examples
use voices.Common.{
  ℕ, ◌+◌, Bool, true, false, Option, none, some, List, [], ◌∷◌, String, ◌==◌, if◌then◌else◌, ◌&&◌,
}
use voices.Net.{IpAddr, v4, v6, SocketAddr}
use voices.VoiceServer.Requests.{OpenConnection, EstablishSession}
use voices.Presence.{ClientInfo}

pub record Present : Type 0 where
  pub user : String
  pub source_id : ℕ

pub record Ready : Type 0 where
  pub id : ℕ
  pub src_id : ℕ
  pub present : List Present
  pub crypt_key : List ℕ

pub data ClientEvent : Type 0 where
  init : ℕ → String → ClientEvent
  join : ℕ → ClientEvent
  leave : ClientEvent
  udp_announce : SocketAddr → ClientEvent
  disconnect : ClientEvent
  keepalive : ℕ → ClientEvent

pub data ServerEvent : Type 0 where
  init : ℕ → ServerEvent
  keepalive : ℕ → ServerEvent
  ready : Ready → ServerEvent
  udp_announce : SocketAddr → ℕ → ServerEvent
  disconnected : ServerEvent
  joined : Present → ServerEvent
  left : Present → ServerEvent
  join_error : ℕ → ServerEvent

-- A `Channel` of the gateway: its state and its voice host, by the names of the shared objects.
pub record Room : Type 0 where
  pub room_id : ℕ
  pub state : ℕ
  pub voice : ℕ

pub record VoiceHandle : Type 0 where
  pub client_id : ℕ
  pub channel_id : ℕ
  pub voice_host : ℕ
  pub room_handle : ℕ
  pub source_id : ℕ

-- What a session does to its surroundings, in order.
pub data Out : Type 0 where
  sent : ServerEvent → Out
  -- a send whose error is ignored
  unsent : ServerEvent → Out
  open_connection : ℕ → OpenConnection → Out
  join_room : ℕ → ClientInfo → Out
  -- a `ChatRoomJoined` is dropped
  leave_room : ℕ → ℕ → Out
  establish_session : ℕ → EstablishSession → Out
  -- the task that the drop of a `VoiceHandle` spawns
  leave_host : ℕ → ℕ → ℕ → Out

pub record ServerSession : Type 0 where
  pub session_id : ℕ
  pub client_id : ℕ
  pub client_name : String
  pub receiving : Bool
  pub voice : Option VoiceHandle

pub data End : Type 0 where
  finished failed panicked : End

-- `ServerSession::new`
abbrev pub new : ℕ → ℕ → String → ServerSession
new session_id client_id client_name = record {
  session_id = session_id;
  client_id = client_id;
  client_name = client_name;
  receiving = true;
  voice = none;
}

-- `ServerSession::init`: the first event must be `Init`, and `Initialized` must reach the client.
unfoldable pub init_session : ℕ → Bool → Option ClientEvent → Option ServerSession × List Out
init_session session_id true (some (ClientEvent.init user_id name)) =
    (some (new session_id user_id name), sent (ServerEvent.init session_id) ∷ [])
init_session session_id reached evt = (none, [])

-- `Drop for VoiceHandle`, and the drop of its fields.
abbrev pub drop_voice : Option VoiceHandle → List Out
drop_voice none = []
drop_voice (some h) =
    leave_host h.voice_host h.channel_id h.client_id ∷ leave_room h.room_handle h.client_id ∷ []

unfoldable pub is_unspecified : IpAddr → Bool
is_unspecified (v4 a) = a == 0
is_unspecified (v6 a) = a == 0
