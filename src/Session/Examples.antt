-- ===== src/Session/Examples.antt =====
-- A session of server/gateway/src/server/session.rs that joins a channel and loses its client.
use voices.Common.{refl, true, some, none, List, [], ◌∷◌}
use voices.Net.{SocketAddr, v4}
use voices.Presence.{ClientInfo}
use voices.VoiceServer.Requests.{ok, err}
use voices.Session.{ServerSession, ClientEvent, Room, new}
use voices.Session.Join.{Answers, VoiceHostError}
use voices.Session.Run.{Input, running, event, status_done, run}
use voices.Session.Release.{Balances, held, run-releases}
use voices.Session.Modes.{idle, Fits}
use voices.Session.Protocol.{run-IsProtocol}

abbrev home : SocketAddr
home = record { ip = v4 0x7f000001; port = 4000 }

abbrev alice : ClientInfo
alice = record { client_id = 1; source_id = 7; name = "alice" }

abbrev room : Room
room = record { room_id = 4; state = 0; voice = 2 }

abbrev answers : Answers
answers = record {
  found = ok (some room);
  opened = err VoiceHostError.not_found;
  reassigned = ok room;
  reopened = ok (record { sock = home; source_id = 7 });
  joins = true;
  members = some (alice ∷ []);
  announced = true;
  reply = some (ClientEvent.udp_announce home);
  established = some (3 ∷ []);
  got_ready = true;
}

abbrev inputs : List Input
inputs =
    event (some (ClientEvent.join 4)) true answers
    ∷ event (some (ClientEvent.join 5)) true answers
    ∷ status_done true
    ∷ event none true answers
    ∷ []

abbrev start : ServerSession
start = new 9 1 "alice"

run-releases_example :
    Balances 0 0 (held (run (running start) inputs).0) (run (running start) inputs).1
run-releases_example = run-releases start inputs refl

run-IsProtocol_example : Fits idle (run (running start) inputs)
run-IsProtocol_example = run-IsProtocol start inputs refl
