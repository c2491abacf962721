-- ===== src/Session/Stages.antt =====
-- server/gateway/src/server/session.rs: the courses that `initialize_voice_connection` can take.
use voices.Common.{
  ℕ, Bool, true, false, Option, none, some, List, [], ◌∷◌, ◌&&◌, Bool-cases, inl, inr,
}
use voices.Net.{SocketAddr}
use voices.Presence.{ClientInfo}
use voices.VoiceServer.Requests.{Result, ok, err, ConnectionData, OpenConnection, EstablishSession}
use voices.Session.{
  ServerSession, ClientEvent, Ready, Room, End, failed, sent, open_connection, join_room,
  establish_session, udp_announce, ready, is_unspecified,
}
use voices.Session.Join.{
  VoiceHostError, Answers, Joined, emit, fail_in, get_ready, answer_established, establish,
  await_client_udp, announce, list_members, join_channel, on_reopened, on_reassigned, on_opened,
  on_found, initialize_voice_connection, handle_of, info_of,
}

-- How far a join has got: the room that was joined, and what was announced.
pub data Stage : Type 0 where
  outside : Stage
  in_room : Room → Stage
  announced : Room → ℕ → Stage

-- From a stage, the effects that follow and the result.
pub data Follows (s : ServerSession) (channel_id : ℕ) : Stage → Joined → Type 0 where
  gives_up : (e : End) → Follows s channel_id outside ([], err e)
  not_found : Follows s channel_id outside ([], ok none)
  opens :
      (host : ℕ) (req : OpenConnection) (j : Joined)
      → Follows s channel_id outside j
      → Follows s channel_id outside (emit (open_connection host req) j)
  joins :
      (room : Room) (src : ℕ) (j : Joined)
      → Follows s channel_id (in_room room) j
      → Follows s channel_id outside (emit (join_room room.state (info_of s src)) j)
  fails_in_room : (room : Room) → Follows s channel_id (in_room room) (fail_in room s)
  announces :
      (room : Room) (addr : SocketAddr) (src : ℕ) (j : Joined)
      → Follows s channel_id (announced room src) j
      → Follows s channel_id (in_room room) (emit (sent (udp_announce addr src)) j)
  fails_announced :
      (room : Room) (src : ℕ) → Follows s channel_id (announced room src) (fail_in room s)
  establishes :
      (room : Room) (src : ℕ) (req : EstablishSession) (j : Joined)
      → Follows s channel_id (announced room src) j
      → Follows s channel_id (announced room src) (emit (establish_session room.voice req) j)
  gets_ready :
      (room : Room) (src : ℕ) (r : Ready)
      → Follows s channel_id
          (announced room src)
          (sent (ready r) ∷ [], ok (some (handle_of s channel_id room src)))

module _ (a : Answers) (s : ServerSession) (channel_id : ℕ) where
  get_ready-Follows :
      (b : Bool) (room : Room) (src : ℕ) (members : List ClientInfo) (key : List ℕ)
      → Follows s channel_id (announced room src) (get_ready b s channel_id room src members key)
  unfolding get_ready
  get_ready-Follows true room src members key = gets_ready room src _
  get_ready-Follows false room src members key = fails_announced room src

  answer-Follows :
      (room : Room) (src : ℕ) (members : List ClientInfo) (key : Option (List ℕ))
      → Follows s channel_id
          (announced room src)
          (answer_established a s channel_id room src members key)
  answer-Follows room src members none = fails_announced room src
  answer-Follows room src members (some key) =
      get_ready-Follows (s.receiving && a.announced && a.got_ready) room src members key

  establish-Follows :
      (room : Room) (src : ℕ) (members : List ClientInfo) (addr : SocketAddr)
      → Follows s channel_id (announced room src) (establish a s channel_id room src members addr)
  unfolding establish
  establish-Follows room src members addr = elim (Bool-cases (is_unspecified addr.ip)) [
    | inl h ↦ rw (h) (fails_announced room src)
    | inr h ↦ rw (h) (establishes room src _ _ (answer-Follows room src members a.established))
  ]

  reply-Follows :
      (room : Room) (src : ℕ) (members : List ClientInfo) (reply : Option ClientEvent)
      → Follows s channel_id
          (announced room src)
          (await_client_udp a s channel_id room src members reply)
  unfolding await_client_udp
  reply-Follows room src members none = fails_announced room src
  reply-Follows room src members (some (ClientEvent.udp_announce addr)) =
      establish-Follows room src members addr
  reply-Follows room src members (some (ClientEvent.init id name)) = fails_announced room src
  reply-Follows room src members (some (ClientEvent.join id)) = fails_announced room src
  reply-Follows room src members (some ClientEvent.leave) = fails_announced room src
  reply-Follows room src members (some ClientEvent.disconnect) = fails_announced room src
  reply-Follows room src members (some (ClientEvent.keepalive t)) = fails_announced room src

  announce-Follows :
      (room : Room) (data' : ConnectionData) (members : List ClientInfo) (b : Bool)
      → Follows s channel_id (in_room room) (announce a s channel_id room data' members b)
  announce-Follows room data' members true =
      announces room data'.sock data'.source_id _
        (reply-Follows room data'.source_id members a.reply)
  announce-Follows room data' members false = fails_in_room room

  members-Follows :
      (room : Room) (data' : ConnectionData) (members : Option (List ClientInfo))
      → Follows s channel_id (in_room room) (list_members a s channel_id room data' members)
  members-Follows room data' none = fails_in_room room
  members-Follows room data' (some members) =
      announce-Follows room data' members (s.receiving && a.announced)

  join-Follows :
      (room : Room) (data' : ConnectionData) (b : Bool)
      → Follows s channel_id outside (join_channel a s channel_id room data' b)
  unfolding join_channel
  join-Follows room data' true = joins room data'.source_id _ (members-Follows room data' a.members)
  join-Follows room data' false = gives_up failed

  reopened-Follows :
      (room : Room) (r : Result ConnectionData VoiceHostError)
      → Follows s channel_id outside (on_reopened a s channel_id room r)
  reopened-Follows room (ok data') = join-Follows room data' a.joins
  reopened-Follows room (err e) = gives_up failed

  reassigned-Follows :
      (r : Result Room End) → Follows s channel_id outside (on_reassigned a s channel_id r)
  reassigned-Follows (ok room) = opens room.voice _ _ (reopened-Follows room a.reopened)
  reassigned-Follows (err e) = gives_up failed

  opened-Follows :
      (room : Room) (r : Result ConnectionData VoiceHostError)
      → Follows s channel_id outside (on_opened a s channel_id room r)
  unfolding on_opened
  opened-Follows room (ok data') = join-Follows room data' a.joins
  opened-Follows room (err VoiceHostError.not_found) = reassigned-Follows a.reassigned
  opened-Follows room (err VoiceHostError.other) = gives_up failed

  found-Follows :
      (r : Result (Option Room) End) → Follows s channel_id outside (on_found a s channel_id r)
  found-Follows (err e) = gives_up failed
  found-Follows (ok none) = not_found
  found-Follows (ok (some room)) = opens room.voice _ _ (opened-Follows room a.opened)

  pub initialize-Follows : Follows s channel_id outside (initialize_voice_connection a s channel_id)
  unfolding initialize_voice_connection
  initialize-Follows = found-Follows a.found
