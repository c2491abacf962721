-- ===== src/Connection/Examples.antt =====
-- The task of server/voice/core/src/channel/connection.rs on small inputs.
use voices.Common.{refl, true, some, List, [], ◌∷◌, All}
use voices.Net.{SocketAddr, v4, Voice}
use voices.Crypto.Tagged.{tagged}
use voices.Connection.{
  VoiceConnection, Peering, peered, Round, ctl, udp_pkt, init, ping, step, run, start,
}
use voices.Connection.Wire.{GoesTo, peer_addr, run-GoesTo}
use voices.Connection.Counters.{Statistics, run-Statistics}

abbrev home : SocketAddr
home = record { ip = v4 0x7f000001; port = 4000 }

abbrev elsewhere : SocketAddr
elsewhere = record { ip = v4 0x7f000001; port = 4001 }

abbrev at_peering : Peering
at_peering = record { addr = home; seq = 0; sent = 0; received = 0; ping_deadline = 15000 }

abbrev alice : VoiceConnection
alice = record { client_id = 1; source_id = 7; crypt_key = 3 ∷ []; phase = peered at_peering }

abbrev bob : VoiceConnection
bob = record { client_id = 2; source_id = 8; crypt_key = 5 ∷ []; phase = peered at_peering }

abbrev a_ping : Round
a_ping = record {
  now = 4000;
  sent = true;
  event = udp_pkt (some (ping (record { seq = 4000; recv = 0; sent = 0; source_id = 7 })));
}

-- Peered at one address, asked again with another, and pinged: the pong goes to the first.
abbrev two_inits : List Round
two_inits =
    record { now = 0; sent = true; event = ctl (some (init home)) }
    ∷ record { now = 1; sent = true; event = ctl (some (init elsewhere)) }
    ∷ a_ping
    ∷ []

run-GoesTo_example :
    All (GoesTo (peer_addr two_inits)) (run tagged (start 0 1 7 (3 ∷ [])) two_inits).1
run-GoesTo_example = run-GoesTo tagged 0 1 7 (3 ∷ []) two_inits

after_ping : Peering
after_ping = record at_peering { ping_deadline = 19000 }

run-Statistics_example :
    Statistics at_peering after_ping 0 (a_ping ∷ []) (run tagged alice (a_ping ∷ [])).1
unfolding after_ping run step
run-Statistics_example =
    run-Statistics tagged alice (a_ping ∷ []) at_peering after_ping 0 refl refl refl

abbrev spoken : Voice
spoken = record { sequence = 1; stream_time = 2; source_id = 7; payload = 6 ∷ 42 ∷ [] }
