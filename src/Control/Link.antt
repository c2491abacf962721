-- ===== src/Control/Link.antt =====
-- ws-proto/src/client.rs and server/gateway/src/server/ws.rs: the tasks at both ends of a WebSocket,
-- and the frames that are on their way between them, each with the time at which it was sent. What is
-- sent is decoded as what it was. What the end of one task does to the other is not modelled.
use voices.Common.{ℕ, Bool, none, some, List, [], ◌∷◌, ◌++◌}
use voices.Session.{ClientEvent, ServerEvent}
use voices.Session.WebSocket
use voices.Control.{
  Task, Input, Effect, Wrote, step, decoded, ws_msg, back_msg, stop, deadline, stream_end,
}

pub record Link : Type 0 where
  pub client : Task
  pub server : WebSocket.Task
  pub up : List (ℕ × ClientEvent)
  pub down : List (ℕ × ServerEvent)
  -- what the program of the client was handed, and what the session was
  pub delivered : List ServerEvent
  pub received : List ClientEvent

pub data Event : Type 0 where
  -- the program of the client sends, stops, drops its end, or a timer of the task ends
  client_sends : ClientEvent → Wrote → Event
  client_stops : Bool → Wrote → Event
  client_drops : Wrote → Event
  client_timer : ℕ → Wrote → Event
  -- the next frame of the server reaches the task, which may find the program gone
  client_reads : Bool → Event
  session_sends : ServerEvent → Bool → Event
  server_timer : Event
  server_reads : Bool → Event
  -- the connection breaks
  client_cut server_cut : Event

-- The frames among the effects of the client's task, and the events for its program.
abbrev pub frames_up : ℕ → List Effect → List (ℕ × ClientEvent)
frames_up now [] = []
frames_up now (Effect.sent_json e ∷ out) = (now, e) ∷ frames_up now out
frames_up now (_ ∷ out) = frames_up now out

abbrev pub to_program : List Effect → List ServerEvent
to_program [] = []
to_program (Effect.forwarded e ∷ out) = e ∷ to_program out
to_program (_ ∷ out) = to_program out

abbrev pub frames_down : ℕ → List WebSocket.Effect → List (ℕ × ServerEvent)
frames_down now [] = []
frames_down now (WebSocket.Effect.sent_json e ∷ out) = (now, e) ∷ frames_down now out
frames_down now (_ ∷ out) = frames_down now out

abbrev pub to_session : List WebSocket.Effect → List ClientEvent
to_session [] = []
to_session (WebSocket.Effect.forwarded e ∷ out) = e ∷ to_session out
to_session (_ ∷ out) = to_session out

abbrev pub client_done : ℕ → Link → Task × List Effect → Link
client_done now l (t, out) = record l {
  client = t;
  up = l.up ++ frames_up now out;
  delivered = l.delivered ++ to_program out;
}

abbrev pub server_done : ℕ → Link → WebSocket.Task × List WebSocket.Effect → Link
server_done now l (t, out) = record l {
  server = t;
  down = l.down ++ frames_down now out;
  received = l.received ++ to_session out;
}

unfoldable pub client_takes : ℕ → Link → Input → Link
client_takes now l i = client_done now l (step l.client (now, i))

unfoldable pub server_takes : ℕ → Link → WebSocket.Input → Link
server_takes now l i = server_done now l (WebSocket.step l.server (now, i))

abbrev pub client_reads_from : ℕ → Link → Bool → List (ℕ × ServerEvent) → Link
client_reads_from now l reached [] = l
client_reads_from now l reached ((t, e) ∷ rest) =
    client_takes now (record l { down = rest }) (ws_msg (decoded e reached))

abbrev pub server_reads_from : ℕ → Link → Bool → List (ℕ × ClientEvent) → Link
server_reads_from now l reached [] = l
server_reads_from now l reached ((t, e) ∷ rest) =
    server_takes now (record l { up = rest })
      (WebSocket.Input.ws_msg (WebSocket.Message.decoded e) reached)

unfoldable pub move : Link → ℕ × Event → Link
unfolding client_takes server_takes
move l (now, Event.client_sends e w) = client_takes now l (back_msg (some e) w)
move l (now, Event.client_stops b w) = client_takes now l (stop b w)
move l (now, Event.client_drops w) = client_takes now l (back_msg none w)
move l (now, Event.client_timer millis w) = client_takes now l (deadline millis w)
move l (now, Event.client_reads b) = client_reads_from now l b l.down
move l (now, Event.session_sends e b) = server_takes now l (WebSocket.Input.back_msg (some e) b)
move l (now, Event.server_timer) = server_takes now l WebSocket.Input.deadline
move l (now, Event.server_reads b) = server_reads_from now l b l.up
move l (now, Event.client_cut) = client_takes now l stream_end
move l (now, Event.server_cut) = server_takes now l WebSocket.Input.stream_end

unfoldable pub moves : Link → List (ℕ × Event) → Link
moves l [] = l
moves l (e ∷ es) = moves (move l e) es
