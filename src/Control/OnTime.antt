-- ===== src/Control/OnTime.antt =====
-- ws-proto/src/client.rs and server/gateway/src/server/ws.rs: the keepalives of the client against the
-- deadline of the gateway.
use voices.Common.{
  if◌then◌else◌, ◌%◌, ◌^◌, inr, inl, Bool-cases, ◌++◌, subst, both_branches, ℕ, ◌+◌, ◌*◌, ◌≤◌, ◌<◌,
  ◌≡◌, Bool, true, false, none, some, List, [], ◌∷◌, refl, leb, arith,
}
use voices.Session.{ClientEvent, ServerEvent}
use voices.Session.WebSocket
use voices.Control.{
  select, written, Effect, step, Task, Input, running, finished, failed, keepalive_time, decoded,
  ws_msg, back_msg, stop, deadline,
}
use voices.Control.Link.{
  frames_up, client_takes, Link, Event, move, moves, server_takes, client_reads_from,
  server_reads_from,
}
use voices.Control.Chain.{
  InTime, Arrives, Timely, IsPrompt, Chain, Linked, Chain-later, LinkedIn, client_takes-LinkedIn,
}

module _ (slack delay : ℕ) where
  -- A step of the gateway's task that is not a frame: at most it ends.
  abbrev Keeps : ℕ → WebSocket.Task × List WebSocket.Effect → Type 0
  Keeps heard (WebSocket.Task.listening k, out) = heard ≤ k
  Keeps heard _ = Unit

  Keeps-Linked :
      (heard : ℕ) (r : WebSocket.Task × List WebSocket.Effect) (up : List (ℕ × ClientEvent))
      (c : Task)
      → Keeps heard r
      → Linked slack delay (WebSocket.Task.listening heard) up c
      → Linked slack delay r.0 up c
  Keeps-Linked heard (WebSocket.Task.listening k, out) up (running last) h cs =
      Chain-later slack delay heard k last up h cs
  Keeps-Linked heard (WebSocket.Task.listening k, out) up finished h cs = tt
  Keeps-Linked heard (WebSocket.Task.listening k, out) up (failed e) h cs = tt
  Keeps-Linked heard (WebSocket.Task.closed, out) up c h cs = tt
  Keeps-Linked heard (WebSocket.Task.failed, out) up c h cs = tt

  Arrives-head : (now t : ℕ) (e : ClientEvent) → (t ≤ now) × (now ≤ t + delay) → t ≤ now
  Arrives-head now t e h = h.0

  answered-Keeps :
      (t now : ℕ) (e : ClientEvent) (b : Bool)
      → t ≤ now
      → Keeps t (WebSocket.handle_incoming_message now b (WebSocket.Message.decoded e))
  unfolding WebSocket.handle_incoming_message
  answered-Keeps t now (ClientEvent.init id name) true h = h
  answered-Keeps t now (ClientEvent.join id) true h = h
  answered-Keeps t now ClientEvent.leave true h = h
  answered-Keeps t now (ClientEvent.udp_announce a) true h = h
  answered-Keeps t now ClientEvent.disconnect true h = h
  answered-Keeps t now (ClientEvent.keepalive k) true h = h
  answered-Keeps t now (ClientEvent.init id name) false h = tt
  answered-Keeps t now (ClientEvent.join id) false h = tt
  answered-Keeps t now ClientEvent.leave false h = tt
  answered-Keeps t now (ClientEvent.udp_announce a) false h = tt
  answered-Keeps t now ClientEvent.disconnect false h = tt
  answered-Keeps t now (ClientEvent.keepalive k) false h = tt

  timer-Keeps : (heard now : ℕ) → Keeps heard (WebSocket.listen heard now WebSocket.Input.deadline)
  unfolding WebSocket.listen
  timer-Keeps heard now =
      both_branches (Keeps heard) (leb (heard + WebSocket.keepalive_time) now) tt (omega arith)

  tells-Keeps :
      (heard now : ℕ) (e : ServerEvent) (b : Bool)
      → Keeps heard (WebSocket.listen heard now (WebSocket.Input.back_msg (some e) b))
  unfolding WebSocket.listen
  tells-Keeps heard now e true = omega arith
  tells-Keeps heard now e false = tt

  -- An input of the gateway's task that is not a frame.
  abbrev IsQuiet : WebSocket.Input → Type 0
  IsQuiet i = (heard now : ℕ) → Keeps heard (WebSocket.listen heard now i)

  cut-IsQuiet : IsQuiet WebSocket.Input.stream_end
  unfolding WebSocket.listen
  cut-IsQuiet heard now = tt

  quiet-Linked :
      (now : ℕ) (s : WebSocket.Task) (i : WebSocket.Input) (up : List (ℕ × ClientEvent)) (c : Task)
      → IsQuiet i
      → Linked slack delay s up c
      → Linked slack delay (WebSocket.step s (now, i)).0 up c
  unfolding WebSocket.step
  quiet-Linked now (WebSocket.Task.listening heard) i up c q k =
      Keeps-Linked heard (WebSocket.listen heard now i) up c (q heard now) k
  quiet-Linked now WebSocket.Task.closed i up c q k = tt
  quiet-Linked now WebSocket.Task.failed i up c q k = tt

  frame-Linked :
      (now t : ℕ) (s : WebSocket.Task) (e : ClientEvent) (b : Bool) (up : List (ℕ × ClientEvent))
      (c : Task)
      → t ≤ now
      → Linked slack delay s ((t, e) ∷ up) c
      → Linked slack delay
          (WebSocket.step s (now, WebSocket.Input.ws_msg (WebSocket.Message.decoded e) b)).0
          up
          c
  unfolding WebSocket.step WebSocket.listen
  frame-Linked now t (WebSocket.Task.listening heard) e b up (running last) h k =
      Keeps-Linked t (WebSocket.handle_incoming_message now b (WebSocket.Message.decoded e)) up
        (running last) (answered-Keeps t now e b h) k.1
  frame-Linked now t (WebSocket.Task.listening heard) e b up finished h k =
      Keeps-Linked t (WebSocket.handle_incoming_message now b (WebSocket.Message.decoded e)) up
        finished (answered-Keeps t now e b h) tt
  frame-Linked now t (WebSocket.Task.listening heard) e b up (failed x) h k =
      Keeps-Linked t (WebSocket.handle_incoming_message now b (WebSocket.Message.decoded e)) up
        (failed x) (answered-Keeps t now e b h) tt
  frame-Linked now t WebSocket.Task.closed e b up c h k = tt
  frame-Linked now t WebSocket.Task.failed e b up c h k = tt

  server_reads-LinkedIn :
      (now : ℕ) (l : Link) (b : Bool) (up : List (ℕ × ClientEvent))
      → Arrives slack delay now up
      → Linked slack delay l.server up l.client
      → l.up ≡ up
      → LinkedIn slack delay (server_reads_from now l b up)
  unfolding server_takes
  server_reads-LinkedIn now l b [] h k e = rw (e) k
  server_reads-LinkedIn now l b ((t, f) ∷ up) h k e =
      frame-Linked now t l.server f b up l.client h.0 k

  client_reads-LinkedIn :
      (now : ℕ) (l : Link) (b : Bool) (down : List (ℕ × ServerEvent))
      → InTime slack delay now l.client
      → LinkedIn slack delay l
      → LinkedIn slack delay (client_reads_from now l b down)
  client_reads-LinkedIn now l b [] h k = k
  client_reads-LinkedIn now l b ((t, e) ∷ down) h k =
      client_takes-LinkedIn slack delay now (record l { down = down }) (ws_msg (decoded e b)) h k

  move-LinkedIn :
      (l : Link) (now : ℕ) (e : Event)
      → Timely slack delay now l
      → LinkedIn slack delay l
      → LinkedIn slack delay (move l (now, e))
  unfolding move server_takes
  move-LinkedIn l now (Event.client_sends e w) h k =
      client_takes-LinkedIn slack delay now l (back_msg (some e) w) h.0 k
  move-LinkedIn l now (Event.client_stops b w) h k =
      client_takes-LinkedIn slack delay now l (stop b w) h.0 k
  move-LinkedIn l now (Event.client_drops w) h k =
      client_takes-LinkedIn slack delay now l (back_msg none w) h.0 k
  move-LinkedIn l now (Event.client_timer millis w) h k =
      client_takes-LinkedIn slack delay now l (deadline millis w) h.0 k
  move-LinkedIn l now (Event.client_reads b) h k = client_reads-LinkedIn now l b l.down h.0 k
  move-LinkedIn l now (Event.session_sends e b) h k =
      quiet-Linked now l.server (WebSocket.Input.back_msg (some e) b) l.up l.client
        (λ heard now. tells-Keeps heard now e b) k
  move-LinkedIn l now Event.server_timer h k =
      quiet-Linked now l.server WebSocket.Input.deadline l.up l.client timer-Keeps k
  move-LinkedIn l now (Event.server_reads b) h k = server_reads-LinkedIn now l b l.up h.1 k refl
  move-LinkedIn l now Event.client_cut h k =
      client_takes-LinkedIn slack delay now l Input.stream_end h.0 k
  move-LinkedIn l now Event.server_cut h k =
      quiet-Linked now l.server WebSocket.Input.stream_end l.up l.client cut-IsQuiet k

  moves-LinkedIn :
      (end : ℕ) (l : Link) (es : List (ℕ × Event))
      → IsPrompt slack delay end l es
      → LinkedIn slack delay l
      → LinkedIn slack delay (moves l es) × Timely slack delay end (moves l es)
  unfolding moves
  moves-LinkedIn end l [] h k = (k, h)
  moves-LinkedIn end l ((now, e) ∷ es) (h, hs) k =
      moves-LinkedIn end (move l (now, e)) es hs (move-LinkedIn l now e h k)

  -- With little enough slack and delay the deadline of the gateway has not passed.
  Chain-before :
      (heard last end : ℕ) (up : List (ℕ × ClientEvent))
      → slack + 2 * delay < 500
      → end ≤ last + keepalive_time + slack
      → Arrives slack delay end up
      → Chain slack delay heard up last
      → end < heard + WebSocket.keepalive_time
  Chain-before heard last end [] h i a c = omega arith
  Chain-before heard last end ((t, e) ∷ up) h i a c = omega arith

  timer_early :
      (heard end : ℕ)
      → end < heard + WebSocket.keepalive_time
      → (WebSocket.listen heard end WebSocket.Input.deadline).0 ≡ WebSocket.Task.listening heard
  unfolding WebSocket.listen
  timer_early heard end h = ground arith

  timer_idle :
      (last end : ℕ) (s : WebSocket.Task) (up : List (ℕ × ClientEvent))
      → slack + 2 * delay < 500
      → end ≤ last + keepalive_time + slack
      → Arrives slack delay end up
      → Linked slack delay s up (running last)
      → (WebSocket.step s (end, WebSocket.Input.deadline)).0 ≡ s
  unfolding WebSocket.step
  timer_idle last end (WebSocket.Task.listening heard) up h i a c =
      timer_early heard end (Chain-before heard last end up h i a c)
  timer_idle last end WebSocket.Task.closed up h i a c = refl
  timer_idle last end WebSocket.Task.failed up h i a c = refl

-- The tasks at their start, with nothing on its way.
abbrev pub opened : ℕ → ℕ → Link
opened last heard = record {
  client = running last;
  server = WebSocket.Task.listening heard;
  up = [];
  down = [];
  delivered = [];
  received = [];
}

-- The timer of the client's task sends a keepalive and starts again, if its time has come.
module _ (now end millis : ℕ) where
  abbrev timed : Bool → Task × List (ℕ × ClientEvent)
  timed b = (
    if b then running end else running now,
    if b then (end, ClientEvent.keepalive (millis % 2 ^ 64)) ∷ [] else [],
  )

  abbrev IsTimed : List (ℕ × ClientEvent) → Bool → Task × List Effect → Type 0
  IsTimed up b (t, out) = (t ≡ (timed b).0) × (up ++ frames_up end out ≡ up ++ (timed b).1)

  step-IsTimed :
      (up : List (ℕ × ClientEvent)) (c : Task)
      → c ≡ running now
      → IsTimed up (leb (now + keepalive_time) end) (step c (end, deadline millis written))
  unfolding step select
  step-IsTimed up (running last) e =
      let same : now ≡ last = cc e in
      rw (same) (elim (Bool-cases (leb (last + keepalive_time) end)) [
        | inl b ↦ rw (b) (refl, refl)
        | inr b ↦ rw (b) (refl, refl)
      ])
  step-IsTimed up finished e = cc e
  step-IsTimed up (failed x) e = cc e

-- The tasks start with nothing on its way, and the timer of the client's task starts at most `delay`
-- after the gateway's task last heard of the client. Up to a moment `end`, the client's task handles its
-- timer at most `slack` late, each of its frames reaches the gateway within `delay`, and `slack` and twice
-- `delay` come to less than half a second. If the client's task still runs at `end`, the deadline of the
-- gateway's task finds nothing to do then: whatever was sent, the keepalives came in time. And if the
-- timer of the client's task is handled at `end` and its write succeeds, the timer starts again and a
-- keepalive is on its way, exactly if two seconds have passed since `now`, the last start of the timer.
pub server_timer-idle :
    (slack delay end last heard now millis : ℕ) (es : List (ℕ × Event))
    → slack + 2 * delay < 500
    → last ≤ heard + delay
    → IsPrompt slack delay end (opened last heard) es
    → (moves (opened last heard) es).client ≡ running now
    → ((move (moves (opened last heard) es) (end, Event.server_timer)).server
        ≡ (moves (opened last heard) es).server)
      × ((move (moves (opened last heard) es) (end, Event.client_timer millis written)).client
          ≡ (if leb (now + keepalive_time) end then running end else running now))
      × ((move (moves (opened last heard) es) (end, Event.client_timer millis written)).up
          ≡ (moves (opened last heard) es).up
            ++ (if leb (now + keepalive_time) end
                then (end, ClientEvent.keepalive (millis % 2 ^ 64)) ∷ []
                else []))
unfolding move server_takes client_takes
server_timer-idle slack delay end last heard now millis es small start prompt runs =
    let l : Link = moves (opened last heard) es in
    let (k, (i, a)) = moves-LinkedIn slack delay end (opened last heard) es prompt start in
    let (t, u) = step-IsTimed now end millis l.up l.client runs in
    (
      timer_idle slack delay now end l.server l.up small (subst (InTime slack delay end) runs i) a
          (subst (Linked slack delay l.server l.up) runs k),
      t,
      u,
    )
