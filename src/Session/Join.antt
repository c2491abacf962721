-- ===== src/Session/Join.antt =====
-- server/gateway/src/server/session.rs: `initialize_voice_connection`.
use voices.Common.{
  ℕ, Bool, true, false, Option, none, some, List, [], ◌∷◌, ◌&&◌, if◌then◌else◌, map,
}
use voices.Net.{SocketAddr}
use voices.Presence.{ClientInfo}
use voices.VoiceServer.Requests.{Result, ok, err, ConnectionData, OpenConnection, EstablishSession}
use voices.Session.{
  ServerSession, ClientEvent, ServerEvent, Present, Ready, Room, VoiceHandle, Out, End, failed,
  sent, open_connection, join_room, leave_room, ready, is_unspecified,
}

pub data VoiceHostError : Type 0 where
  not_found other : VoiceHostError

-- The answers that a join gets: from the channels, the voice hosts, the room and the client.
pub record Answers : Type 0 where
  pub found : Result (Option Room) End
  pub opened : Result ConnectionData VoiceHostError
  pub reassigned : Result Room End
  pub reopened : Result ConnectionData VoiceHostError
  pub joins : Bool
  pub members : Option (List ClientInfo)
  pub announced : Bool
  pub reply : Option ClientEvent
  pub established : Option (List ℕ)
  pub got_ready : Bool

abbrev pub Joined : Type 0
Joined = List Out × Result (Option VoiceHandle) End

abbrev pub emit : Out → Joined → Joined
emit o (os, r) = (o ∷ os, r)

-- An error after the room was joined drops the room's handle.
abbrev pub fail_in : Room → ServerSession → Joined
fail_in room s = (leave_room room.state s.client_id ∷ [], err failed)

abbrev present_of : ClientInfo → Present
present_of c = record { user = c.name; source_id = c.source_id }

abbrev pub ready_of : ℕ → ℕ → List ClientInfo → List ℕ → Ready
ready_of channel_id src members key = record {
  id = channel_id;
  src_id = src;
  present = map present_of members;
  crypt_key = key;
}

abbrev pub handle_of : ServerSession → ℕ → Room → ℕ → VoiceHandle
handle_of s channel_id room src = record {
  client_id = s.client_id;
  channel_id = channel_id;
  voice_host = room.voice;
  room_handle = room.state;
  source_id = src;
}

-- `voice_ready`, and the handle.
unfoldable pub get_ready : Bool → ServerSession → ℕ → Room → ℕ → List ClientInfo → List ℕ → Joined
get_ready true s channel_id room src members key = (
  sent (ready (ready_of channel_id src members key)) ∷ [],
  ok (some (handle_of s channel_id room src)),
)
get_ready false s channel_id room src members key = fail_in room s

abbrev pub answer_established :
    Answers → ServerSession → ℕ → Room → ℕ → List ClientInfo → Option (List ℕ) → Joined
answer_established a s channel_id room src members none = fail_in room s
answer_established a s channel_id room src members (some key) =
    get_ready (s.receiving && a.announced && a.got_ready) s channel_id room src members key

-- `ensure!(!is_unspecified)` and `establish_session`
unfoldable pub establish :
    Answers → ServerSession → ℕ → Room → ℕ → List ClientInfo → SocketAddr → Joined
unfolding get_ready is_unspecified
establish a s channel_id room src members addr =
    let request : EstablishSession = record {
      channel_id = channel_id;
      client_id = s.client_id;
      client_addr = addr;
    } in
    if is_unspecified addr.ip
    then fail_in room s
    else emit (Out.establish_session room.voice request)
        (answer_established a s channel_id room src members a.established)

-- `await_client_udp`
unfoldable pub await_client_udp :
    Answers → ServerSession → ℕ → Room → ℕ → List ClientInfo → Option ClientEvent → Joined
unfolding establish
await_client_udp a s channel_id room src members (some (ClientEvent.udp_announce addr)) =
    establish a s channel_id room src members addr
await_client_udp a s channel_id room src members _ = fail_in room s

abbrev pub announce :
    Answers → ServerSession → ℕ → Room → ConnectionData → List ClientInfo → Bool → Joined
announce a s channel_id room data' members true =
    emit (sent (ServerEvent.udp_announce data'.sock data'.source_id))
      (await_client_udp a s channel_id room data'.source_id members a.reply)
announce a s channel_id room data' members false = fail_in room s

abbrev pub list_members :
    Answers → ServerSession → ℕ → Room → ConnectionData → Option (List ClientInfo) → Joined
list_members a s channel_id room data' none = fail_in room s
list_members a s channel_id room data' (some members) =
    announce a s channel_id room data' members (s.receiving && a.announced)

abbrev pub info_of : ServerSession → ℕ → ClientInfo
info_of s src = record { client_id = s.client_id; source_id = src; name = s.client_name }

-- From `channel.join(info)` on.
unfoldable pub join_channel : Answers → ServerSession → ℕ → Room → ConnectionData → Bool → Joined
unfolding await_client_udp
join_channel a s channel_id room data' true =
    emit (join_room room.state (info_of s data'.source_id))
      (list_members a s channel_id room data' a.members)
join_channel a s channel_id room data' false = ([], err failed)

abbrev pub on_reopened :
    Answers → ServerSession → ℕ → Room → Result ConnectionData VoiceHostError → Joined
on_reopened a s channel_id room (ok data') = join_channel a s channel_id room data' a.joins
on_reopened a s channel_id room (err e) = ([], err failed)

abbrev pub request_of : ServerSession → ℕ → OpenConnection
request_of s channel_id = record {
  user_name = s.client_name;
  channel_id = channel_id;
  client_id = s.client_id;
}

abbrev pub on_reassigned : Answers → ServerSession → ℕ → Result Room End → Joined
on_reassigned a s channel_id (ok room) =
    emit (open_connection room.voice (request_of s channel_id))
      (on_reopened a s channel_id room a.reopened)
on_reassigned a s channel_id (err e) = ([], err failed)

-- The answer of `open_connection`; the channel is reassigned once where it is not found.
unfoldable pub on_opened :
    Answers → ServerSession → ℕ → Room → Result ConnectionData VoiceHostError → Joined
unfolding join_channel
on_opened a s channel_id room (ok data') = join_channel a s channel_id room data' a.joins
on_opened a s channel_id room (err VoiceHostError.not_found) =
    on_reassigned a s channel_id a.reassigned
on_opened a s channel_id room (err VoiceHostError.other) = ([], err failed)

abbrev pub on_found : Answers → ServerSession → ℕ → Result (Option Room) End → Joined
on_found a s channel_id (err e) = ([], err failed)
on_found a s channel_id (ok none) = ([], ok none)
on_found a s channel_id (ok (some room)) =
    emit (open_connection room.voice (request_of s channel_id))
      (on_opened a s channel_id room a.opened)

unfoldable pub initialize_voice_connection : Answers → ServerSession → ℕ → Joined
unfolding on_opened
initialize_voice_connection a s channel_id = on_found a s channel_id a.found
