-- ===== src/VoiceServer/Examples.antt =====
-- The voice server of server/voice/core/src/lib.rs on small inputs.
use voices.Common.{ℕ, ◌≡◌, refl, arith, true, some, none, [], ◌∷◌, lookup, insert}
use voices.Net.{v4}
use voices.Crypto.Tagged.{tagged}
use voices.Ports
use voices.Forwarder.{Random}
use voices.Forwarder.Loop.{Room, crashed, recv_failed, fresh}
use voices.VoiceServer.{VoiceServer, Channel, new, assign_channel}
use voices.VoiceServer.Ops.{Op, assign, room_act, clean, op_run}
use voices.VoiceServer.Requests.{err, open_connection_at, OpenConnectionError}
use voices.VoiceServer.Assign.{Leaves, assign-Leaves}
use voices.VoiceServer.Crashed.{IsDead, dead_channel_stays}

abbrev two_ports : VoiceServer
two_ports = new (v4 0x7f000001) (Ports.new 0 33333 2)

assign-Leaves_example : Leaves 4 9 true two_ports (assign_channel 1 true 4 two_ports)
assign-Leaves_example = assign-Leaves 4 9 true 1 true two_ports

abbrev dead_channel : Channel
dead_channel = record { channel_ctl = 0; port = record { port = 33333; taken = 0 } }

abbrev dead_room : Room
dead_room = record (fresh 0) { status = crashed }

abbrev dead_server : VoiceServer
dead_server = record {
  host_addr = v4 0x7f000001;
  ports = Ports.new 0 33333 2;
  channels = insert 4 dead_channel [];
  rooms = insert 0 dead_room [];
  next_ctl = 1;
}

dead_server-IsDead : IsDead 4 dead_channel dead_server
unfolding lookup insert
dead_server-IsDead = record {
  entry = refl;
  room = dead_room;
  found = refl;
  dead = refl;
  old = omega arith;
}

abbrev drawn : Random
drawn = record { source_id = 7; crypt_key = 3 ∷ [] }

abbrev later : voices.Common.List Op
later = assign 5 true 9 ∷ room_act 6 0 recv_failed ∷ clean 9 ∷ []

dead_channel_stays_example :
    (assign_channel 8 true 4 (op_run tagged dead_server later)
      ≡ (some dead_channel, op_run tagged dead_server later))
    × (open_connection_at tagged 8 drawn
          (record { user_name = "bob"; channel_id = 4; client_id = 2 })
          (op_run tagged dead_server later)
        ≡ (err OpenConnectionError.channel_not_found, op_run tagged dead_server later))
dead_channel_stays_example =
    dead_channel_stays tagged 4 dead_channel dead_server later dead_server-IsDead
      ((λ e. omega (arith, e)), tt) 8 true drawn "bob" 2
