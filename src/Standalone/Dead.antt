-- ===== src/Standalone/Dead.antt =====
-- The standalone server with a channel whose forwarder has panicked.
use voices.Common.{arith, ℕ, ◌≡◌, refl, Bool, true, false, none, some, List, [], ◌∷◌}
use voices.Crypto.{Aead}
use voices.Forwarder.{Random}
use voices.VoiceServer.{VoiceServer, Channel, assign_channel}
use voices.VoiceServer.Requests.{ok, err, open_connection_at, OpenConnectionError}
use voices.VoiceServer.Ops.{Op, op_run, Unannounced}
use voices.VoiceServer.Crashed.{IsDead, dead_channel_stays}
use voices.Registry.{Tables}
use voices.Registry.Query.{get_channel}
use voices.Registry.Query
use voices.Grpc.{text}
use voices.Hosts.{missing, open_connection, integrated_host}
use voices.Hosts.Choice.{local_voice_host_for}
use voices.Session.{ServerSession, ClientEvent, Room, Out, failed}
use voices.Session.Join.{Answers, not_found, request_of, initialize_voice_connection, on_opened}
use voices.Session.Run.{ended, event, take, handle_event, stop_voice, join_from}
use voices.Standalone.{ask_hosts}

module _ (aead : Aead) (now : ℕ) (bound : Bool) (rand : Random) (t : Tables) where
  local_dead :
      {A : Type 0} (id : ℕ) (c : Channel) (ch : Query.Channel) (v : VoiceServer) (reassign : Bool)
      (host : A)
      → get_channel now id t ≡ some ch
      → assign_channel now bound id v ≡ (some c, v)
      → local_voice_host_for now bound id reassign host t v ≡ (ok (some host), v)
  unfolding local_voice_host_for
  local_dead id c ch v reassign host g e = rw (g, e) refl

  host_dead :
      (s : ServerSession) (id : ℕ) (v : VoiceServer)
      → open_connection_at aead now rand (request_of s id) v
        ≡ (err OpenConnectionError.channel_not_found, v)
      → integrated_host aead now rand (open_connection (request_of s id)) v
        ≡ (err (missing (text "channel")), v)
  unfolding integrated_host
  host_dead s id v e = rw (e) refl

  -- The answers that a join gets on a dead channel.
  record Refused (room : Room) (a : Answers) : Type 0 where
    pub found : a.found ≡ ok (some room)
    pub opened : a.opened ≡ err not_found
    pub reassigned : a.reassigned ≡ ok room
    pub reopened : a.reopened ≡ err not_found

  hosts-Refused :
      (id : ℕ) (c : Channel) (ch : Query.Channel) (v : VoiceServer) (known : Bool) (room : Room)
      (s : ServerSession) (a : Answers)
      → get_channel now id t ≡ some ch
      → assign_channel now bound id v ≡ (some c, v)
      → open_connection_at aead now rand (request_of s id) v
        ≡ (err OpenConnectionError.channel_not_found, v)
      → Refused room (ask_hosts aead now bound rand t known room s id v a)
  unfolding ask_hosts
  hosts-Refused id c ch v true room s a g e o =
      rw (host_dead s id v o, local_dead id c ch v true room g e, host_dead s id v o)
        (record { found = refl; opened = refl; reassigned = refl; reopened = refl })
  hosts-Refused id c ch v false room s a g e o =
      rw
        (
          local_dead id c ch v false room g e,
          host_dead s id v o,
          local_dead id c ch v true room g e,
          host_dead s id v o,
        )
        (record { found = refl; opened = refl; reassigned = refl; reopened = refl })

  Refused-ends :
      (room : Room) (a : Answers) (s : ServerSession) (id : ℕ) (reached : Bool)
      → Refused room a
      → s.voice ≡ none
      → take s (event (some (ClientEvent.join id)) reached a) ≡ (
        ended failed,
        Out.open_connection room.voice (request_of s id)
            ∷ Out.open_connection room.voice (request_of s id)
            ∷ [],
      )
  unfolding take handle_event stop_voice join_from initialize_voice_connection on_opened
  Refused-ends room a s id reached f n =
      ground (arith, f.found, f.opened, f.reassigned, f.reopened, n)

  -- On a standalone server that has a channel whose forwarder has panicked, after any sequence of
  -- operations of its voice server that does not clean up that channel, a client without a voice
  -- connection that asks to join the channel ends its own session: the session is refused, asks for the
  -- channel to be reassigned, is given the same voice host, is refused again, and stops with an error
  -- without telling the client.
  pub dead_channel_ends_session :
      (id : ℕ) (c : Channel) (ch : Query.Channel) (v : VoiceServer) (os : List Op) (known : Bool)
      (room : Room) (s : ServerSession) (a : Answers) (reached : Bool)
      → IsDead id c v
      → Unannounced id os
      → get_channel now id t ≡ some ch
      → s.voice ≡ none
      → take s (
          event
            (some (ClientEvent.join id))
            reached
            (ask_hosts aead now bound rand t known room s id (op_run aead v os) a))
        ≡ (
          ended failed,
          Out.open_connection room.voice (request_of s id)
              ∷ Out.open_connection room.voice (request_of s id)
              ∷ [],
        )
  dead_channel_ends_session id c ch v os known room s a reached d u g n =
      let (e, o) : (assign_channel now bound id (op_run aead v os) ≡ (some c, op_run aead v os))
          × (open_connection_at aead now rand (request_of s id) (op_run aead v os)
              ≡ (err OpenConnectionError.channel_not_found, op_run aead v os)) =
        dead_channel_stays aead id c v os d u now bound rand s.client_name s.client_id in
      Refused-ends room (ask_hosts aead now bound rand t known room s id (op_run aead v os) a) s id
        reached (hosts-Refused id c ch (op_run aead v os) known room s a g e o) n
