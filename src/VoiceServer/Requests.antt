-- ===== src/VoiceServer/Requests.antt =====
-- server/voice/core/src/lib.rs: the requests of a voice server that go to a channel, with what the
-- methods of `Channel` in server/voice/core/src/channel/mod.rs make of a lost answer.
use voices.Common.{ℕ, Option, none, some, List, String, lookup, insert}
use voices.Net.{SocketAddr}
use voices.Crypto.{Aead}
use voices.Connection.{ConnectionState}
use voices.Forwarder.{
  ChannelCtl, Random, Peer, Handled, replied, failed, panicked, Reply, opened, established, present,
  state, peer_not_found,
}
use voices.Forwarder.Control.{control_msg}
use voices.Forwarder.Loop.{Room, Status, running, ended, crashed, after_control}
use voices.VoiceServer.{VoiceServer, Channel, get_channel}

pub data Result {ℓ κ} (A : Type ℓ) (E : Type κ) : Type (ℓ ⊔ κ) where
  ok : A → Result A E
  err : E → Result A E

pub record OpenConnection : Type 0 where
  pub user_name : String
  pub channel_id : ℕ
  pub client_id : ℕ

pub record ConnectionData : Type 0 where
  pub sock : SocketAddr
  pub source_id : ℕ

pub record EstablishSession : Type 0 where
  pub channel_id : ℕ
  pub client_id : ℕ
  pub client_addr : SocketAddr

pub data OpenConnectionError : Type 0 where
  channel_not_found no_open_ports other : OpenConnectionError

pub data LeaveError : Type 0 where
  channel_not_found peer_not_here : LeaveError

pub data EstablishSessionError : Type 0 where
  peer_not_here channel_not_found other : EstablishSessionError

pub data StatusError : Type 0 where
  peer_not_here channel_not_found other : StatusError

-- The answer of a request: `not_sent` where the forwarder no longer receives, `lost` where the
-- responder was dropped.
pub data Answer : Type 0 where
  not_sent lost : Answer
  got : Reply → Answer

abbrev pub answer_of : Handled → Answer
answer_of (replied r) = got r
answer_of failed = lost
answer_of panicked = lost

abbrev pub ask_open : Aead → ℕ → ChannelCtl → ℕ → Room → Status → VoiceServer → Answer × VoiceServer
ask_open aead now c handle m running s =
    let h = control_msg aead now c m.forwarder in
    (answer_of h.0, record s { rooms = insert handle (after_control now m h) s.rooms })
ask_open aead now c handle m ended s = (not_sent, s)
ask_open aead now c handle m crashed s = (not_sent, s)

abbrev pub ask_room : Aead → ℕ → ChannelCtl → ℕ → Option Room → VoiceServer → Answer × VoiceServer
ask_room aead now c handle none s = (not_sent, s)
ask_room aead now c handle (some m) s = ask_open aead now c handle m m.status s

-- A request on the control channel of a channel.
unfoldable pub ask : Aead → ℕ → ChannelCtl → Channel → VoiceServer → Answer × VoiceServer
ask aead now c ch s = ask_room aead now c ch.channel_ctl (lookup ch.channel_ctl s.rooms) s

-- `Channel::open_connection`, and what the server makes of it.
abbrev pub opened_as : VoiceServer → Channel → Answer → Result ConnectionData OpenConnectionError
opened_as s ch (got (opened src)) =
    ok (record { sock = record { ip = s.host_addr; port = ch.port.port }; source_id = src })
opened_as s ch not_sent = err OpenConnectionError.channel_not_found
opened_as s ch _ = err OpenConnectionError.other

abbrev open_at :
    Aead
    → ℕ
    → Random
    → OpenConnection
    → VoiceServer
    → Option Channel
    → Result ConnectionData OpenConnectionError × VoiceServer
open_at aead now rand req s none = (err OpenConnectionError.channel_not_found, s)
open_at aead now rand req s (some ch) =
    let (a, s') = ask aead now (ChannelCtl.open_connection req.client_id req.user_name rand) ch s in
    (opened_as s ch a, s')

-- `VoiceServerImpl::open_connection`
unfoldable pub open_connection_at :
    Aead
    → ℕ
    → Random
    → OpenConnection
    → VoiceServer
    → Result ConnectionData OpenConnectionError × VoiceServer
unfolding ask
open_connection_at aead now rand req s = open_at aead now rand req s (get_channel req.channel_id s)

-- `Channel::establish_session`
abbrev pub established_as : Answer → Result (List ℕ) EstablishSessionError
established_as (got (established key src)) = ok key
established_as (got peer_not_found) = err EstablishSessionError.peer_not_here
established_as _ = err EstablishSessionError.other

abbrev establish_at :
    Aead
    → ℕ
    → EstablishSession
    → VoiceServer
    → Option Channel
    → Result (List ℕ) EstablishSessionError × VoiceServer
establish_at aead now req s none = (err EstablishSessionError.channel_not_found, s)
establish_at aead now req s (some ch) =
    let (a, s') = ask aead now (ChannelCtl.establish req.client_id req.client_addr) ch s in
    (established_as a, s')

-- `VoiceServerImpl::establish_session`
unfoldable pub establish_session :
    Aead → ℕ → EstablishSession → VoiceServer → Result (List ℕ) EstablishSessionError × VoiceServer
unfolding ask
establish_session aead now req s = establish_at aead now req s (get_channel req.channel_id s)

abbrev left_as : Answer → Result (Unit {0}) LeaveError
left_as (got r) = ok tt
left_as _ = err LeaveError.peer_not_here

abbrev leave_at :
    Aead → ℕ → ℕ → VoiceServer → Option Channel → Result (Unit {0}) LeaveError × VoiceServer
leave_at aead now client_id s none = (err LeaveError.channel_not_found, s)
leave_at aead now client_id s (some ch) =
    let (a, s') = ask aead now (ChannelCtl.leave client_id) ch s in (left_as a, s')

-- `VoiceServerImpl::leave`
unfoldable pub leave_channel :
    Aead → ℕ → ℕ → ℕ → VoiceServer → Result (Unit {0}) LeaveError × VoiceServer
unfolding ask
leave_channel aead now channel_id client_id s =
    leave_at aead now client_id s (get_channel channel_id s)

abbrev status_as : Answer → Result ConnectionState StatusError
status_as (got (state st)) = ok st
status_as (got peer_not_found) = err StatusError.peer_not_here
status_as _ = err StatusError.other

abbrev status_at :
    Aead → ℕ → ℕ → VoiceServer → Option Channel → Result ConnectionState StatusError × VoiceServer
status_at aead now client_id s none = (err StatusError.channel_not_found, s)
status_at aead now client_id s (some ch) =
    let (a, s') = ask aead now (ChannelCtl.status client_id) ch s in (status_as a, s')

-- `VoiceServerImpl::user_status`
unfoldable pub user_status :
    Aead → ℕ → ℕ → ℕ → VoiceServer → Result ConnectionState StatusError × VoiceServer
unfolding ask
user_status aead now channel_id client_id s =
    status_at aead now client_id s (get_channel channel_id s)

abbrev peers_as : Answer → Result (List Peer) StatusError
peers_as (got (present ps)) = ok ps
peers_as _ = err StatusError.other

abbrev peers_at :
    Aead → ℕ → VoiceServer → Option Channel → Result (List Peer) StatusError × VoiceServer
peers_at aead now s none = (err StatusError.channel_not_found, s)
peers_at aead now s (some ch) = let (a, s') = ask aead now ChannelCtl.peers ch s in (peers_as a, s')

-- `VoiceServerImpl::status`
unfoldable pub channel_status :
    Aead → ℕ → ℕ → VoiceServer → Result (List Peer) StatusError × VoiceServer
unfolding ask
channel_status aead now channel_id s = peers_at aead now s (get_channel channel_id s)
