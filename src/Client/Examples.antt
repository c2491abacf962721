-- ===== src/Client/Examples.antt =====
-- Tests of client/src/udp.rs and client/src/main.rs.
use voices.Common.{
  zero, suc, ◌↔◌, lookup, remove, insert, ◌-◌, ℕ, ◌^◌, ◌≡◌, true, false, none, some, List, [], ◌∷◌,
  arith, refl,
}
use voices.Net.{SocketAddr, Voice, Payload, ServerMessage, v4}
use voices.Crypto.{encrypt, nonce, decrypt}
use voices.Crypto.Tagged.{tagged}
use voices.Connection.{
  VoiceConnection, Peering, peered, udp_pkt, voice_rx, received, send_to, voice_tx, peered_step,
  InternalMsg,
}
use voices.Forwarder.{Conn, Forwarder}
use voices.Forwarder.Socket.{socket_msg, reply_to}
use voices.Client.Sender.{
  Tx, sending, TxRound, slept, Speaker, start_tx, tx_step, tx_run, on_tx, send_voice, send_ping,
}
use voices.Client.Nonces.{nonces, Encrypted, IsDistinct, run-IsDistinct}
use voices.Client.Receiver.{
  Rx, VoiceEvent, RxRound, voice_evt, joined, left, queued, to_stream, receiving, start_rx, rx_step,
  rx_run, send_found, on_rx, on_voice_evt, register, remove_stream,
}
use voices.Client.Routes.{stream_of, run-routes}
use voices.Client.Relayed.{packet, chunk_round, packet_round, heard_as_spoken}
use voices.Session.{ClientEvent, ServerEvent, End, new}
use voices.Session.Join
use voices.Session.Run.{Input, event, running, run, step, take, handle_event, stop_voice, join_from}
use voices.VoiceServer.Requests.{err, ok}
use voices.Client.Program.{Config, Answers, Result, Act, discovery, async_main}
use voices.Client.Discovery.{discovery_ends}
use voices.Client.Surprise.{IsSurprised}
use voices.Client.Greeting.{reaching, IsRefused, async_main-IsSurprised}
use voices.Client.Setup
use voices.Client.Setup.{Setup, discover_ip, answered, discovers}

abbrev speaker : Speaker
speaker = record { key = 3 ∷ []; mute = false; source_id = 7 }

abbrev timer_at : ℕ → TxRound
timer_at now = record {
  event = slept (record { now = now; millis = some now; received = 0 });
  taken = true;
}

-- Two chunks, whose numbers pass the end of the counter, with a ping after each.
abbrev tx_rounds : List TxRound
tx_rounds = chunk_round (42 ∷ []) ∷ timer_at 5000 ∷ chunk_round (43 ∷ []) ∷ timer_at 10000 ∷ []

run-IsDistinct_example :
    Encrypted tagged speaker.key
      (tx_run tagged speaker (start_tx 0 (2 ^ 64 - 1) 5) tx_rounds).1
      (nonces (tx_run tagged speaker (start_tx 0 (2 ^ 64 - 1) 5) tx_rounds).1)
    × IsDistinct (nonces (tx_run tagged speaker (start_tx 0 (2 ^ 64 - 1) 5) tx_rounds).1)
unfolding tx_run tx_step on_tx send_voice send_ping encrypt
run-IsDistinct_example =
    run-IsDistinct tagged speaker 0 (2 ^ 64 - 1) 5 tx_rounds (omega arith) (omega arith)
      (omega arith)

-- Two speakers join, and one of them leaves and joins again.
abbrev evt : VoiceEvent → RxRound
evt e = record { event = voice_evt (some e); answer = queued; clock = true }

abbrev rx_rounds : List RxRound
rx_rounds = evt (joined 7) ∷ evt (joined 9) ∷ evt (left 7) ∷ evt (joined 7) ∷ []

abbrev joined_twice : Rx
joined_twice = record { current = (7, 2) ∷ (9, 1) ∷ []; streams = 3; received = 0 }

rx_run-rounds :
    (rx_run tagged (5 ∷ []) false (start_rx false).0 rx_rounds).0 ≡ receiving joined_twice
unfolding rx_run rx_step on_rx on_voice_evt register remove_stream insert remove
rx_run-rounds = refl

abbrev said : Voice
said = record { sequence = 1; stream_time = 2; source_id = 7; payload = 8 ∷ 42 ∷ [] }

run-routes_example :
    rx_step tagged (5 ∷ []) false (receiving joined_twice) (packet_round said)
    ≡ send_found queued
        (record joined_twice { received = 1 })
        7
        (record said { payload = 42 ∷ [] })
        (stream_of 7 0 none rx_rounds)
unfolding decrypt nonce
run-routes_example =
    run-routes tagged (5 ∷ []) false joined_twice rx_rounds (packet_round said) said (42 ∷ [])
      rx_run-rounds refl refl

abbrev at_peering : Peering
at_peering = record {
  addr = record { ip = v4 0x7f000001; port = 4000 };
  seq = 0;
  sent = 0;
  received = 0;
  ping_deadline = 15000;
}

abbrev alice : VoiceConnection
alice = record { client_id = 1; source_id = 7; crypt_key = 3 ∷ []; phase = peered at_peering }

abbrev bob : VoiceConnection
bob = record { client_id = 2; source_id = 9; crypt_key = 5 ∷ []; phase = peered at_peering }

abbrev at_start : Tx
at_start = record { start_seq_num = 1; sequence = 1; stream_time = 2; deadline = 5000; sent = 0 }

heard_as_spoken_example :
    ((tx_step tagged speaker (sending at_start) (chunk_round (42 ∷ []))).1
      ≡ Payload.voice (packet at_start speaker (6 ∷ 42 ∷ [])) ∷ [])
    × ((peered_step tagged 0 true alice at_peering
          (udp_pkt (some (InternalMsg.voice (packet at_start speaker (6 ∷ 42 ∷ [])))))).1
        ≡ voice_tx 7 (packet at_start speaker (42 ∷ [])) ∷ [])
    × ((peered_step tagged 0 true bob at_peering
          (voice_rx (received 7 (packet at_start speaker (42 ∷ []))))).1
        ≡ send_to (ServerMessage.voice (packet at_start speaker (8 ∷ 42 ∷ []))) at_peering.addr
          ∷ [])
    × ((rx_step tagged
          (5 ∷ [])
          false
          (receiving joined_twice)
          (packet_round (packet at_start speaker (8 ∷ 42 ∷ [])))).1
        ≡ to_stream 2 (packet at_start speaker (42 ∷ [])) ∷ [])
unfolding encrypt nonce stream_of
heard_as_spoken_example =
    heard_as_spoken tagged alice bob at_peering at_peering 0 speaker at_start (42 ∷ [])
      (6 ∷ 42 ∷ []) (8 ∷ 42 ∷ []) false joined_twice rx_rounds 2 refl refl (omega arith) refl refl
      rx_run-rounds refl

abbrev waiting_conn : Conn
waiting_conn = record { ctl = record { source_id = 7; user_name = "alice"; tx = 0 }; addr = none }

abbrev one_member : Forwarder
one_member = record {
  connections = (7, waiting_conn) ∷ [];
  client_id_to_src_id = (1, 7) ∷ [];
  tasks = [];
  spawned = (0, alice) ∷ [];
  next_handle = 1;
}

discovers_example :
    (m : ServerMessage) × (socket_msg one_member at_peering.addr
        (record { payload = some (Payload.ip_disco (record { uuid = 1 ∷ []; source_id = 7 })) })
      ≡ reply_to m at_peering.addr)
    × (discover_ip (λ ip. some ip) true (answered (some m)) ≡ Setup.ok at_peering.addr)
unfolding lookup
discovers_example =
    discovers (λ ip. some ip) one_member waiting_conn at_peering.addr (1 ∷ []) 7 refl refl
      (omega arith)

abbrev home : SocketAddr
home = record { ip = v4 0x7f000001; port = 4000 }

-- The third attempt finds the address.
abbrev third_time : ℕ → Setup SocketAddr
third_time zero = Setup.err Setup.timeout
third_time (suc zero) = Setup.err Setup.bad_data
third_time (suc (suc n)) = Setup.ok home

discovery_ends_example : discovery 6 0 7 third_time [] ≡ record {
  result = Result.ok home;
  acts = Act.discover 7 ∷ Act.discover 7 ∷ Act.discover 7 ∷ [];
  inc = [];
}
discovery_ends_example = discovery_ends 7 6 third_time [] (omega arith)

abbrev config : Config
config = record { user_id = 1; name = "alice"; deaf = false; mute = false }

abbrev lucky : Answers
lucky = record {
  connected = true;
  init_sent = true;
  join_sent = true;
  bound = true;
  udp_connected = true;
  discovered = third_time;
  announce_sent = true;
  recording = true;
  ctrl_c = none;
  leave_sent = true;
  stop_taken = true;
  stop_answered = true;
}

abbrev unreachable : Join.Answers
unreachable = record {
  found = err End.failed;
  opened = err Join.VoiceHostError.not_found;
  reassigned = err End.failed;
  reopened = err Join.VoiceHostError.not_found;
  joins = true;
  members = none;
  announced = true;
  reply = none;
  established = none;
  got_ready = true;
}

-- A channel that the gateway does not know.
abbrev no_channel : Join.Answers
no_channel = record unreachable { found = ok none }

abbrev join_inputs : List Input
join_inputs = event (some (ClientEvent.join 4)) true no_channel ∷ []

async_main-IsSurprised_example :
    IsSurprised
      (async_main some
        (λ key. true)
        config
        lucky
        4
        (ServerEvent.init 9 ∷ reaching (run (running (new 9 1 "alice")) join_inputs).1)).result
    ↔ IsRefused (reaching (run (running (new 9 1 "alice")) join_inputs).1)
async_main-IsSurprised_example =
    async_main-IsSurprised some (λ key. true) config lucky 4 9 (new 9 1 "alice") join_inputs refl
      refl refl refl

join_inputs-IsRefused : IsRefused (reaching (run (running (new 9 1 "alice")) join_inputs).1)
unfolding reaching run step take handle_event stop_voice join_from Join.initialize_voice_connection
join_inputs-IsRefused = tt
