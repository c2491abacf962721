-- ===== src/Forwarder/Examples.antt =====
-- The forwarder of server/voice/core/src/channel/mod.rs on small inputs.
use voices.Common.{ℕ, ◌≡◌, ◌≢◌, ◌↔◌, refl, some, List, [], ◌∷◌, insert, lookup}
use voices.Net.{SocketAddr, v4, Ping, ClientMessage, Payload}
use voices.Crypto.Tagged.{tagged}
use voices.Connection.{is_waiting, is_peered, VoiceConnection, Peering, peered, InternalMsg}
use voices.Forwarder.{
  Handled, opened, established, state, status, Conn, Forwarder, Random, VoiceTask, ChannelCtl,
  open_connection, establish, peers, Peer, replied, present,
}
use voices.Forwarder
use voices.Forwarder.Tasks.{task}
use voices.Forwarder.Control.{control_msg}
use voices.Forwarder.Socket.{forward, to_task}
use voices.Forwarder.Loop.{crashed, Act, packet, control, run, fresh, contains_task}
use voices.Forwarder.Present.{Inv, IsFresh}
use voices.Forwarder.Panics.{AllProper, run-ne-crashed}
use voices.Forwarder.Admission.{Admits, forward_iff}
use voices.Forwarder.Joining.{joining}

abbrev home : SocketAddr
home = record { ip = v4 0x7f000001; port = 4000 }

abbrev drawn : Random
drawn = record { source_id = 7; crypt_key = 3 ∷ [] }

abbrev drawn_again : Random
drawn_again = record { source_id = 5; crypt_key = 4 ∷ [] }

abbrev a_ping : Ping
a_ping = record { seq = 1; recv = 0; sent = 0; source_id = 7 }

abbrev history : List (ℕ × Act)
history =
    (1, control (open_connection 1 "alice" drawn))
    ∷ (2, control (establish 1 home))
    ∷ (3, packet home (record { payload = some (Payload.ping a_ping) }))
    ∷ []

new-IsFresh : IsFresh Forwarder.new 7
unfolding Forwarder.new lookup contains_task
new-IsFresh = record { unmapped = λ c e. cc; untasked = λ t e. cc }

run-ne-crashed_example :
    ((run tagged (fresh 0) history).status ≢ crashed) × Inv (run tagged (fresh 0) history).forwarder
unfolding AllProper
run-ne-crashed_example = run-ne-crashed tagged 0 history (new-IsFresh, (tt, ((λ e. cc), tt)))

abbrev at_peering : Peering
at_peering = record { addr = home; seq = 0; sent = 0; received = 0; ping_deadline = 15000 }

abbrev task_of_src : ℕ → VoiceConnection
task_of_src src = record {
  client_id = 1;
  source_id = src;
  crypt_key = 3 ∷ [];
  phase = peered at_peering;
}

abbrev conn7 : Conn
conn7 = record { ctl = record { source_id = 7; user_name = "alice"; tx = 0 }; addr = some home }

abbrev conn5 : Conn
conn5 = record { ctl = record { source_id = 5; user_name = "bob"; tx = 1 }; addr = some home }

-- Alice is client 1 with source id 7, Bob is client 2 with source id 5.
abbrev two_members : Forwarder
two_members = record {
  connections = insert 5 conn5 (insert 7 conn7 []);
  client_id_to_src_id = insert 1 7 (insert 2 5 []);
  tasks = [];
  spawned = (0, task_of_src 7) ∷ (1, task_of_src 5) ∷ [];
  next_handle = 2;
}

forward_iff_example :
    (forward two_members home 7 (InternalMsg.ping a_ping) ≡ to_task 0 (InternalMsg.ping a_ping))
    ↔ Admits two_members home 7 0
forward_iff_example = forward_iff two_members home 7 0 (InternalMsg.ping a_ping)

forward_delivers :
    forward two_members home 7 (InternalMsg.ping a_ping) ≡ to_task 0 (InternalMsg.ping a_ping)
unfolding forward insert lookup task voices.Net.same_addr
forward_delivers = refl

abbrev opened_example : Handled × Forwarder
opened_example = control_msg tagged 1 (open_connection 1 "alice" drawn) Forwarder.new

abbrev established_example : Handled × Forwarder
established_example = control_msg tagged 2 (establish 1 home) opened_example.1

joining_example :
    (opened_example.0 ≡ replied (opened 7))
    × ((control_msg tagged 2 (status 1) opened_example.1).0 ≡ replied (state is_waiting))
    × (established_example.0 ≡ replied (established (3 ∷ []) 7))
    × ((control_msg tagged 3 (status 1) established_example.1).0 ≡ replied (state is_peered))
joining_example = joining tagged 1 2 3 1 "alice" drawn home Forwarder.new
