-- ===== src/Standalone/Examples.antt =====
-- Tests of the standalone server.
use voices.Common.{◌≡◌, refl, arith, true, false, some, none, List, [], ◌∷◌, lookup}
use voices.Net.{v4}
use voices.Crypto.Tagged.{tagged}
use voices.Ports
use voices.Forwarder.{Random}
use voices.Forwarder.Loop.{Room, crashed, recv_failed, fresh}
use voices.VoiceServer.{VoiceServer, Channel}
use voices.VoiceServer.Ops.{Op, assign, room_act, clean, op_run}
use voices.VoiceServer.Requests.{ok, err}
use voices.VoiceServer.Crashed.{IsDead}
use voices.Registry.{Tables}
use voices.Registry.Query.{get_channel}
use voices.Registry.Query
use voices.Session.{ServerSession, ClientEvent, Out, failed, new}
use voices.Session
use voices.Session.Join.{Answers, VoiceHostError, request_of}
use voices.Session.Run.{ended, event, take}
use voices.Standalone.{ask_hosts}
use voices.Standalone.Dead.{dead_channel_ends_session}

abbrev dead_channel : Channel
dead_channel = record { channel_ctl = 0; port = record { port = 33333; taken = 0 } }

abbrev dead_room : Room
dead_room = record (fresh 0) { status = crashed }

abbrev dead_server : VoiceServer
dead_server = record {
  host_addr = v4 0x7f000001;
  ports = Ports.new 0 33333 2;
  channels = (4, dead_channel) ∷ [];
  rooms = (0, dead_room) ∷ [];
  next_ctl = 1;
}

dead_server-IsDead : IsDead 4 dead_channel dead_server
unfolding lookup
dead_server-IsDead = record {
  entry = refl;
  room = dead_room;
  found = refl;
  dead = refl;
  old = omega arith;
}

-- An assignment and the cleanup of another channel.
abbrev later : List Op
later = assign 5 true 9 ∷ room_act 6 0 recv_failed ∷ clean 9 ∷ []

abbrev tables : Tables
tables = record {
  servers = (1, "home") ∷ [];
  channels = (4, record { server_id = 1; assigned_to = none; name = "room"; updated_at = 0 }) ∷ [];
  voice_servers = [];
}

abbrev the_channel : Query.Channel
the_channel = record {
  info = record { id = 4; name = "room" };
  server_id = 1;
  assigned_to = none;
  updated_at = 0;
}

tables_channel : get_channel 8 4 tables ≡ some the_channel
unfolding get_channel lookup
tables_channel = refl

abbrev drawn : Random
drawn = record { source_id = 7; crypt_key = 3 ∷ [] }

abbrev room : Session.Room
room = record { room_id = 4; state = 0; voice = 2 }

abbrev bob : ServerSession
bob = new 9 2 "bob"

abbrev unused : Answers
unused = record {
  found = ok none;
  opened = err VoiceHostError.other;
  reassigned = err failed;
  reopened = err VoiceHostError.other;
  joins = true;
  members = none;
  announced = true;
  reply = none;
  established = none;
  got_ready = true;
}

dead_channel_ends_session_example :
    take bob (
      event (some (ClientEvent.join 4)) true (
        ask_hosts tagged 8 true drawn tables false room bob 4
          (op_run tagged dead_server later)
          unused))
    ≡ (
      ended failed,
      Out.open_connection 2 (request_of bob 4) ∷ Out.open_connection 2 (request_of bob 4) ∷ [],
    )
dead_channel_ends_session_example =
    dead_channel_ends_session tagged 8 true drawn tables 4 dead_channel the_channel dead_server
      later false room bob unused true dead_server-IsDead ((λ e. omega (arith, e)), tt)
      tables_channel refl
