-- ===== src/Control/Chain.antt =====
-- ws-proto/src/client.rs: how long ago the frames of a client were sent, through the steps of its task.
use voices.Common.{
  ◌%◌, ◌^◌, both_branches, ℕ, ◌+◌, ◌≤◌, Bool, true, false, none, some, List, [], ◌∷◌, ◌++◌, leb,
  arith,
}
use voices.Session.{ClientEvent, ServerEvent}
use voices.Session.WebSocket
use voices.Control.{
  Task, Message, Input, Effect, Wrote, step, select, running, finished, failed, keepalive_time,
  send_json, close_ws, forward, written, refused, elapsed, decoded, ws_msg, back_msg, stop,
  deadline,
}
use voices.Control.Link.{Link, Event, move, client_takes, frames_up}

-- `slack` is how late the task's timer may be handled, and `delay` how long a frame may take.
module _ (slack delay : ℕ) where
  -- A running task of the client is not left past its deadline.
  abbrev pub InTime : ℕ → Task → Type 0
  InTime now (running last) = now ≤ last + keepalive_time + slack
  InTime now _ = Unit

  abbrev pub Arrives : ℕ → List (ℕ × ClientEvent) → Type 0
  Arrives now [] = Unit
  Arrives now ((t, e) ∷ up) = (t ≤ now) × (now ≤ t + delay)

  abbrev pub Timely : ℕ → Link → Type 0
  Timely now l = InTime now l.client × Arrives now l.up

  -- At every event, and at `end`, no timer of the client and no frame to the gateway is overdue.
  abbrev pub IsPrompt : ℕ → Link → List (ℕ × Event) → Type 0
  IsPrompt end l [] = Timely end l
  IsPrompt end l ((now, e) ∷ es) = Timely now l × IsPrompt end (move l (now, e)) es

  -- The frames on their way were sent at most a keepalive apart, the first one after `heard`.
  abbrev pub Chain : ℕ → List (ℕ × ClientEvent) → ℕ → Type 0
  Chain heard [] last = last ≤ heard + delay
  Chain heard ((t, e) ∷ up) last = (t ≤ heard + keepalive_time + slack + delay) × Chain t up last

  abbrev pub Linked : WebSocket.Task → List (ℕ × ClientEvent) → Task → Type 0
  Linked (WebSocket.Task.listening heard) up (running last) = Chain heard up last
  Linked s up c = Unit

  pub Chain-send :
      (heard last now : ℕ) (e : ClientEvent) (up : List (ℕ × ClientEvent))
      → now ≤ last + keepalive_time + slack
      → Chain heard up last
      → Chain heard (up ++ (now, e) ∷ []) now
  Chain-send heard last now e [] h c = (omega arith, omega arith)
  Chain-send heard last now e ((t, f) ∷ up) h (c, cs) = (c, Chain-send t last now e up h cs)

  pub Chain-later :
      (heard later last : ℕ) (up : List (ℕ × ClientEvent))
      → heard ≤ later
      → Chain heard up last
      → Chain later up last
  Chain-later heard later last [] h c = omega arith
  Chain-later heard later last ((t, e) ∷ up) h (c, cs) = (omega arith, cs)

  pub Chain-nothing :
      (heard last : ℕ) (up : List (ℕ × ClientEvent))
      → Chain heard up last
      → Chain heard (up ++ []) last
  Chain-nothing heard last [] c = c
  Chain-nothing heard last ((t, e) ∷ up) (c, cs) = (c, Chain-nothing t last up cs)

  -- A step of the client's task, with the frames that it adds.
  abbrev pub After : ℕ → ℕ → List (ℕ × ClientEvent) → Task × List Effect → Type 0
  After heard now up (t, out) = Linked (WebSocket.Task.listening heard) (up ++ frames_up now out) t

  module _ (heard last now : ℕ) (up : List (ℕ × ClientEvent))
      (h : now ≤ last + keepalive_time + slack) (c : Chain heard up last) where
    send_json-After : (e : ClientEvent) (w : Wrote) → After heard now up (send_json now e w)
    send_json-After e written = Chain-send heard last now e up h c
    send_json-After e refused = tt
    send_json-After e elapsed = tt

    close_ws-After : (w : Wrote) (out : List Effect) → After heard now up (close_ws w out)
    close_ws-After written out = tt
    close_ws-After refused out = tt
    close_ws-After elapsed out = tt

    nothing-After : After heard now up (running last, [])
    nothing-After = Chain-nothing heard last up c

    forward-After : (e : ServerEvent) (b : Bool) → After heard now up (forward last e b)
    forward-After (ServerEvent.keepalive t) b = nothing-After
    forward-After (ServerEvent.init id) true = nothing-After
    forward-After (ServerEvent.ready r) true = nothing-After
    forward-After (ServerEvent.udp_announce a s) true = nothing-After
    forward-After ServerEvent.disconnected true = nothing-After
    forward-After (ServerEvent.joined p) true = nothing-After
    forward-After (ServerEvent.left p) true = nothing-After
    forward-After (ServerEvent.join_error id) true = nothing-After
    forward-After (ServerEvent.init id) false = tt
    forward-After (ServerEvent.ready r) false = tt
    forward-After (ServerEvent.udp_announce a s) false = tt
    forward-After ServerEvent.disconnected false = tt
    forward-After (ServerEvent.joined p) false = tt
    forward-After (ServerEvent.left p) false = tt
    forward-After (ServerEvent.join_error id) false = tt

    select-After : (i : Input) → After heard now up (select last now i)
    unfolding select
    select-After Input.stream_end = tt
    select-After Input.stream_error = tt
    select-After (ws_msg (Message.close w)) = close_ws-After w []
    select-After (ws_msg Message.undecodable) = tt
    select-After (ws_msg (decoded e b)) = forward-After e b
    select-After (back_msg (some e) w) = send_json-After e w
    select-After (back_msg none w) = close_ws-After w []
    select-After (stop true w) = close_ws-After w (Effect.replied ∷ [])
    select-After (stop false w) = close_ws-After w []
    select-After (deadline millis w) =
        both_branches (After heard now up) (leb (last + keepalive_time) now)
          (send_json-After (ClientEvent.keepalive (millis % 2 ^ 64)) w) nothing-After

  abbrev pub LinkedIn : Link → Type 0
  LinkedIn l = Linked l.server l.up l.client

  pub client_step-Linked :
      (now : ℕ) (s : WebSocket.Task) (up : List (ℕ × ClientEvent)) (c : Task) (i : Input)
      → InTime now c
      → Linked s up c
      → Linked s (up ++ frames_up now (step c (now, i)).1) (step c (now, i)).0
  unfolding step
  client_step-Linked now (WebSocket.Task.listening heard) up (running last) i h k =
      select-After heard last now up h k i
  client_step-Linked now (WebSocket.Task.listening heard) up finished i h k = tt
  client_step-Linked now (WebSocket.Task.listening heard) up (failed e) i h k = tt
  client_step-Linked now WebSocket.Task.closed up c i h k = tt
  client_step-Linked now WebSocket.Task.failed up c i h k = tt

  pub client_takes-LinkedIn :
      (now : ℕ) (l : Link) (i : Input)
      → InTime now l.client
      → LinkedIn l
      → LinkedIn (client_takes now l i)
  unfolding client_takes
  client_takes-LinkedIn now l i h k = client_step-Linked now l.server l.up l.client i h k
