-- ===== src/Control/Carried.antt =====
-- ws-proto/src/client.rs and server/gateway/src/server/ws.rs: what one step of either task hands over
-- and sends.
use voices.Common.{
  both_branches, ℕ, ◌+◌, ◌≡◌, Bool, true, false, none, some, List, [], ◌∷◌, ◌++◌, refl, leb, ap,
  sym, ◌∙◌, ◌%◌, ◌^◌,
}
use mathlib.Core.List.{append-nil, append_assoc}
use voices.Session.{ClientEvent, ServerEvent}
use voices.Session.WebSocket
use voices.Control.{
  Task, Input, Effect, Wrote, select, running, finished, failed, keepalive_time, send_json,
  close_ws, forward, written, refused, elapsed, decoded, ws_msg, back_msg, stop, deadline,
}
use voices.Control.Link.{Link, Event, frames_up, to_program, frames_down, to_session}

-- The tasks answer keepalives themselves.
abbrev pub event_of : ClientEvent → List ClientEvent
event_of (ClientEvent.keepalive t) = []
event_of e = e ∷ []

abbrev pub message_of : ServerEvent → List ServerEvent
message_of (ServerEvent.keepalive t) = []
message_of e = e ∷ []

unfoldable pub events : List (ℕ × ClientEvent) → List ClientEvent
events [] = []
events ((t, e) ∷ up) = event_of e ++ events up

unfoldable pub messages : List (ℕ × ServerEvent) → List ServerEvent
messages [] = []
messages ((t, e) ∷ down) = message_of e ++ messages down

-- What the program of the client sends, and what the session sends.
abbrev pub said_by : Event → List ClientEvent
said_by (Event.client_sends e w) = event_of e
said_by _ = []

abbrev pub told_by : Event → List ServerEvent
told_by (Event.session_sends e b) = message_of e
told_by _ = []

unfoldable pub said : List (ℕ × Event) → List ClientEvent
said [] = []
said ((now, e) ∷ es) = said_by e ++ said es

unfoldable pub told : List (ℕ × Event) → List ServerEvent
told [] = []
told ((now, e) ∷ es) = told_by e ++ told es

abbrev pub IsRunning : Task → Type 0
IsRunning (running last) = Unit
IsRunning finished = ⊥
IsRunning (failed e) = ⊥

abbrev pub IsListening : WebSocket.Task → Type 0
IsListening (WebSocket.Task.listening heard) = Unit
IsListening WebSocket.Task.closed = ⊥
IsListening WebSocket.Task.failed = ⊥

abbrev pub AreOpen : Link → Type 0
AreOpen l = IsRunning l.client × IsListening l.server

-- What has arrived or is on its way, to the session and to the program.
abbrev pub upward : Link → List ClientEvent
upward l = l.received ++ events l.up

abbrev pub downward : Link → List ServerEvent
downward l = l.delivered ++ messages l.down

pub events-++ :
    (up later : List (ℕ × ClientEvent)) → events (up ++ later) ≡ events up ++ events later
unfolding events
events-++ [] later = refl
events-++ ((t, e) ∷ up) later =
    ap (λ x. event_of e ++ x) (events-++ up later) ∙ sym (append_assoc (event_of e) _ _)

pub messages-++ :
    (down later : List (ℕ × ServerEvent))
    → messages (down ++ later) ≡ messages down ++ messages later
unfolding messages
messages-++ [] later = refl
messages-++ ((t, e) ∷ down) later =
    ap (λ x. message_of e ++ x) (messages-++ down later) ∙ sym (append_assoc (message_of e) _ _)

-- What a step of one task contributes while the task goes on: what it hands over and what it sends.
abbrev pub Contributes : List ServerEvent → List ClientEvent → ℕ → Task × List Effect → Type 0
Contributes taken sends now (running k, out) =
    (to_program out ≡ taken) × (events (frames_up now out) ≡ sends)
Contributes taken sends now _ = Unit

pub send_json-Contributes :
    (now : ℕ) (e : ClientEvent) (w : Wrote) → Contributes [] (event_of e) now (send_json now e w)
unfolding events
send_json-Contributes now e written = (refl, append-nil (event_of e))
send_json-Contributes now e refused = tt
send_json-Contributes now e elapsed = tt

pub close_ws-Contributes :
    (taken : List ServerEvent) (sends : List ClientEvent) (now : ℕ) (w : Wrote) (out : List Effect)
    → Contributes taken sends now (close_ws w out)
close_ws-Contributes taken sends now written out = tt
close_ws-Contributes taken sends now refused out = tt
close_ws-Contributes taken sends now elapsed out = tt

pub forward-Contributes :
    (last now : ℕ) (e : ServerEvent) (b : Bool)
    → Contributes (message_of e) [] now (forward last e b)
unfolding events
forward-Contributes last now (ServerEvent.keepalive t) b = (refl, refl)
forward-Contributes last now (ServerEvent.init id) true = (refl, refl)
forward-Contributes last now (ServerEvent.ready r) true = (refl, refl)
forward-Contributes last now (ServerEvent.udp_announce a s) true = (refl, refl)
forward-Contributes last now ServerEvent.disconnected true = (refl, refl)
forward-Contributes last now (ServerEvent.joined p) true = (refl, refl)
forward-Contributes last now (ServerEvent.left p) true = (refl, refl)
forward-Contributes last now (ServerEvent.join_error id) true = (refl, refl)
forward-Contributes last now (ServerEvent.init id) false = tt
forward-Contributes last now (ServerEvent.ready r) false = tt
forward-Contributes last now (ServerEvent.udp_announce a s) false = tt
forward-Contributes last now ServerEvent.disconnected false = tt
forward-Contributes last now (ServerEvent.joined p) false = tt
forward-Contributes last now (ServerEvent.left p) false = tt
forward-Contributes last now (ServerEvent.join_error id) false = tt

pub timer-Contributes :
    (last now millis : ℕ) (w : Wrote) → Contributes [] [] now (select last now (deadline millis w))
unfolding select events
timer-Contributes last now millis w =
    both_branches (Contributes [] [] now) (leb (last + keepalive_time) now)
      (send_json-Contributes now (ClientEvent.keepalive (millis % 2 ^ 64)) w) (refl, refl)

-- The same for a step of the gateway's task.
abbrev pub Supplies :
    List ClientEvent → List ServerEvent → ℕ → WebSocket.Task × List WebSocket.Effect → Type 0
Supplies taken sends now (WebSocket.Task.listening k, out) =
    (to_session out ≡ taken) × (messages (frames_down now out) ≡ sends)
Supplies taken sends now _ = Unit

pub frame-Supplies :
    (now : ℕ) (e : ClientEvent) (b : Bool)
    → Supplies
        (event_of e)
        []
        now
        (WebSocket.handle_incoming_message now b (WebSocket.Message.decoded e))
unfolding WebSocket.handle_incoming_message messages
frame-Supplies now (ClientEvent.init id name) true = (refl, refl)
frame-Supplies now (ClientEvent.join id) true = (refl, refl)
frame-Supplies now ClientEvent.leave true = (refl, refl)
frame-Supplies now (ClientEvent.udp_announce a) true = (refl, refl)
frame-Supplies now ClientEvent.disconnect true = (refl, refl)
frame-Supplies now (ClientEvent.keepalive k) true = (refl, refl)
frame-Supplies now (ClientEvent.init id name) false = tt
frame-Supplies now (ClientEvent.join id) false = tt
frame-Supplies now ClientEvent.leave false = tt
frame-Supplies now (ClientEvent.udp_announce a) false = tt
frame-Supplies now ClientEvent.disconnect false = tt
frame-Supplies now (ClientEvent.keepalive k) false = tt

pub timer-Supplies :
    (heard now : ℕ) → Supplies [] [] now (WebSocket.listen heard now WebSocket.Input.deadline)
unfolding WebSocket.listen messages
timer-Supplies heard now =
    both_branches (Supplies [] [] now) (leb (heard + WebSocket.keepalive_time) now) tt (refl, refl)

pub tells-Supplies :
    (heard now : ℕ) (e : ServerEvent) (b : Bool)
    → Supplies []
        (message_of e)
        now
        (WebSocket.listen heard now (WebSocket.Input.back_msg (some e) b))
unfolding WebSocket.listen messages
tells-Supplies heard now e true = (refl, append-nil (message_of e))
tells-Supplies heard now e false = tt

-- Each input of the client's task.
module _ (last now : ℕ) where
  pub frame-Contributes :
      (e : ServerEvent) (b : Bool)
      → Contributes (message_of e) [] now (select last now (ws_msg (decoded e b)))
  unfolding select
  frame-Contributes e b = forward-Contributes last now e b

  pub send-Contributes :
      (e : ClientEvent) (w : Wrote)
      → Contributes [] (event_of e) now (select last now (back_msg (some e) w))
  unfolding select
  send-Contributes e w = send_json-Contributes now e w

  pub drop-Contributes : (w : Wrote) → Contributes [] [] now (select last now (back_msg none w))
  unfolding select
  drop-Contributes w = close_ws-Contributes [] [] now w []

  pub stop-Contributes : (b : Bool) (w : Wrote) → Contributes [] [] now (select last now (stop b w))
  unfolding select
  stop-Contributes true w = close_ws-Contributes [] [] now w (Effect.replied ∷ [])
  stop-Contributes false w = close_ws-Contributes [] [] now w []

  pub cut-Contributes : Contributes [] [] now (select last now Input.stream_end)
  unfolding select
  cut-Contributes = tt

-- Each input of the gateway's task.
module _ (heard now : ℕ) where
  pub read-Supplies :
      (e : ClientEvent) (b : Bool)
      → Supplies
          (event_of e)
          []
          now
          (WebSocket.listen heard now (WebSocket.Input.ws_msg (WebSocket.Message.decoded e) b))
  unfolding WebSocket.listen
  read-Supplies e b = frame-Supplies now e b

  pub cut-Supplies : Supplies [] [] now (WebSocket.listen heard now WebSocket.Input.stream_end)
  unfolding WebSocket.listen
  cut-Supplies = tt
