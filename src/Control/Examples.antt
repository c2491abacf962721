-- ===== src/Control/Examples.antt =====
-- Two ends of a WebSocket: a client joins, is quiet, and its keepalive comes in time.
use voices.Common.{
  ◌+◌, ◌%◌, ◌^◌, leb, if◌then◌else◌, ℕ, ◌≡◌, ◌++◌, refl, true, List, [], ◌∷◌, arith,
}
use voices.Session.{ClientEvent, ServerEvent}
use voices.Session.WebSocket
use voices.Control.{keepalive_time, written, running, step, select}
use voices.Control.Link.{Link, Event, move, moves, client_takes, server_takes}
use voices.Control.OnTime.{opened, server_timer-idle}
use voices.Control.Carried.{AreOpen, upward, downward, said, told}
use voices.Control.Fifo.{moves-carries}

abbrev events : List (ℕ × Event)
events =
    (1000, Event.client_sends (ClientEvent.join 4) written)
    ∷ (1100, Event.server_reads true)
    ∷ (1200, Event.session_sends (ServerEvent.join_error 4) true)
    ∷ (3050, Event.client_timer 77 written)
    ∷ (3100, Event.server_reads true)
    ∷ (3200, Event.client_reads true)
    ∷ []

abbrev start : Link
start = opened 0 50

server_timer-idle_example :
    ((move (moves start events) (3300, Event.server_timer)).server ≡ (moves start events).server)
    × ((move (moves start events) (3300, Event.client_timer 99 written)).client
        ≡ (if leb (3050 + keepalive_time) 3300 then running 3300 else running 3050))
    × ((move (moves start events) (3300, Event.client_timer 99 written)).up
        ≡ (moves start events).up
          ++ (if leb (3050 + keepalive_time) 3300
              then (3300, ClientEvent.keepalive (99 % 2 ^ 64)) ∷ []
              else []))
unfolding moves move client_takes server_takes step select WebSocket.step WebSocket.listen
    WebSocket.handle_incoming_message
server_timer-idle_example =
    server_timer-idle 100 100 3300 0 50 3050 99 events (omega arith) (omega arith) (omega arith)
      refl

moves-carries_example :
    AreOpen start
    × (upward (moves start events) ≡ upward start ++ said events)
    × (downward (moves start events) ≡ downward start ++ told events)
unfolding moves move client_takes server_takes step select WebSocket.step WebSocket.listen
    WebSocket.handle_incoming_message
moves-carries_example = moves-carries start events (tt, tt)

-- The session has the join, the answer is delivered, and the gateway's keepalive is on its way.
events-moves : moves start events ≡ record {
  client = running 3050;
  server = WebSocket.Task.listening 3100;
  up = [];
  down = (3100, ServerEvent.keepalive 77) ∷ [];
  delivered = ServerEvent.join_error 4 ∷ [];
  received = ClientEvent.join 4 ∷ [];
}
unfolding moves move client_takes server_takes step select WebSocket.step WebSocket.listen
    WebSocket.handle_incoming_message
events-moves = refl
