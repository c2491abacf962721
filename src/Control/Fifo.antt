-- ===== src/Control/Fifo.antt =====
-- ws-proto/src/client.rs and server/gateway/src/server/ws.rs: what the two tasks carry between the
-- program of the client and the session.
use voices.Common.{ℕ, ◌≡◌, Bool, none, some, List, [], ◌∷◌, ◌++◌, refl, ap, sym, ◌∙◌}
use mathlib.Core.List.{append-nil, append_assoc}
use voices.Session.{ClientEvent, ServerEvent}
use voices.Session.WebSocket
use voices.Control.{
  Task, Input, Effect, step, select, running, finished, failed, decoded, ws_msg, back_msg, stop,
  deadline,
}
use voices.Control.Link.{
  Link, Event, move, moves, client_takes, server_takes, client_done, server_done, client_reads_from,
  server_reads_from, frames_up, frames_down,
}
use voices.Control.Carried.{
  event_of, message_of, events, messages, said, told, said_by, told_by, AreOpen, IsRunning,
  IsListening, upward, downward, events-++, messages-++, Contributes, Supplies, frame-Contributes,
  send-Contributes, drop-Contributes, stop-Contributes, cut-Contributes, timer-Contributes,
  read-Supplies, timer-Supplies, tells-Supplies, cut-Supplies,
}

client_done-carries :
    (now : ℕ) (l : Link) (r : Task × List Effect) (taken : List ServerEvent)
    (sends : List ClientEvent)
    → IsRunning r.0
    → Contributes taken sends now r
    → (upward (client_done now l r) ≡ upward l ++ sends)
      × (downward (client_done now l r) ≡ l.delivered ++ (taken ++ messages l.down))
client_done-carries now l (running k, out) taken sends o (t, s) = (
  ap (λ x. l.received ++ x) (events-++ l.up (frames_up now out) ∙ ap (λ x. events l.up ++ x) s)
      ∙ sym (append_assoc l.received (events l.up) sends),
  ap (λ x. (l.delivered ++ x) ++ messages l.down) t
      ∙ append_assoc l.delivered taken (messages l.down),
)
client_done-carries now l (finished, out) taken sends o c = absurd o
client_done-carries now l (failed e, out) taken sends o c = absurd o

server_done-carries :
    (now : ℕ) (l : Link) (r : WebSocket.Task × List WebSocket.Effect) (taken : List ClientEvent)
    (sends : List ServerEvent)
    → IsListening r.0
    → Supplies taken sends now r
    → (upward (server_done now l r) ≡ l.received ++ (taken ++ events l.up))
      × (downward (server_done now l r) ≡ downward l ++ sends)
server_done-carries now l (WebSocket.Task.listening k, out) taken sends o (t, s) = (
  ap (λ x. (l.received ++ x) ++ events l.up) t ∙ append_assoc l.received taken (events l.up),
  ap (λ x. l.delivered ++ x)
        (messages-++ l.down (frames_down now out) ∙ ap (λ x. messages l.down ++ x) s)
      ∙ sym (append_assoc l.delivered (messages l.down) sends),
)
server_done-carries now l (WebSocket.Task.closed, out) taken sends o c = absurd o
server_done-carries now l (WebSocket.Task.failed, out) taken sends o c = absurd o

-- What a move adds to the two directions, if both tasks go on after it.
abbrev Carries : Link → List ClientEvent → List ServerEvent → Link → Type 0
Carries l up down l' = AreOpen l × (upward l' ≡ upward l ++ up) × (downward l' ≡ downward l ++ down)

select-IsRunning : (now : ℕ) (c : Task) (i : Input) → IsRunning (step c (now, i)).0 → IsRunning c
unfolding step
select-IsRunning now (running last) i o = tt
select-IsRunning now finished i o = o
select-IsRunning now (failed e) i o = o

listen-IsListening :
    (now : ℕ) (s : WebSocket.Task) (i : WebSocket.Input)
    → IsListening (WebSocket.step s (now, i)).0
    → IsListening s
unfolding WebSocket.step
listen-IsListening now (WebSocket.Task.listening heard) i o = tt
listen-IsListening now WebSocket.Task.closed i o = o
listen-IsListening now WebSocket.Task.failed i o = o

module _ (now : ℕ) where
  step-Contributes :
      (c : Task) (i : Input) (taken : List ServerEvent) (sends : List ClientEvent)
      → ((last : ℕ) → Contributes taken sends now (select last now i))
      → Contributes taken sends now (step c (now, i))
  unfolding step
  step-Contributes (running last) i taken sends h = h last
  step-Contributes finished i taken sends h = tt
  step-Contributes (failed e) i taken sends h = tt

  step-Supplies :
      (s : WebSocket.Task) (i : WebSocket.Input) (taken : List ClientEvent)
      (sends : List ServerEvent)
      → ((heard : ℕ) → Supplies taken sends now (WebSocket.listen heard now i))
      → Supplies taken sends now (WebSocket.step s (now, i))
  unfolding WebSocket.step
  step-Supplies (WebSocket.Task.listening heard) i taken sends h = h heard
  step-Supplies WebSocket.Task.closed i taken sends h = tt
  step-Supplies WebSocket.Task.failed i taken sends h = tt

module _ (now : ℕ) (l : Link) where
  -- The client's task takes something that is not a frame.
  client_takes-Carries :
      (i : Input) (sends : List ClientEvent)
      → ((last : ℕ) → Contributes [] sends now (select last now i))
      → AreOpen (client_takes now l i)
      → Carries l sends [] (client_takes now l i)
  unfolding client_takes
  client_takes-Carries i sends h (o, p) =
      let (a, b) =
        client_done-carries now l (step l.client (now, i)) [] sends o
          (step-Contributes now l.client i [] sends h) in
      ((select-IsRunning now l.client i o, p), a, b ∙ sym (append-nil (downward l)))

  server_takes-Carries :
      (i : WebSocket.Input) (sends : List ServerEvent)
      → ((heard : ℕ) → Supplies [] sends now (WebSocket.listen heard now i))
      → AreOpen (server_takes now l i)
      → Carries l [] sends (server_takes now l i)
  unfolding server_takes
  server_takes-Carries i sends h (o, p) =
      let (a, b) =
        server_done-carries now l (WebSocket.step l.server (now, i)) [] sends p
          (step-Supplies now l.server i [] sends h) in
      ((o, listen-IsListening now l.server i p), a ∙ sym (append-nil (upward l)), b)

  client_reads-Carries :
      (b : Bool) (down : List (ℕ × ServerEvent))
      → l.down ≡ down
      → AreOpen (client_reads_from now l b down)
      → Carries l [] [] (client_reads_from now l b down)
  unfolding client_takes messages
  client_reads-Carries b [] e o = (o, sym (append-nil (upward l)), sym (append-nil (downward l)))
  client_reads-Carries b ((t, f) ∷ down) e (o, p) =
      let i : Input = ws_msg (decoded f b) in
      let (u, d) =
        client_done-carries now (record l { down = down }) (step l.client (now, i)) (message_of f)
          [] o
          (step-Contributes now l.client i (message_of f) []
            (λ last. frame-Contributes last now f b)) in
      (
        (select-IsRunning now l.client i o, p),
        u,
        d ∙ ap (λ x. l.delivered ++ messages x) (sym e) ∙ sym (append-nil (downward l)),
      )

  server_reads-Carries :
      (b : Bool) (up : List (ℕ × ClientEvent))
      → l.up ≡ up
      → AreOpen (server_reads_from now l b up)
      → Carries l [] [] (server_reads_from now l b up)
  unfolding server_takes events
  server_reads-Carries b [] e o = (o, sym (append-nil (upward l)), sym (append-nil (downward l)))
  server_reads-Carries b ((t, f) ∷ up) e (o, p) =
      let i : WebSocket.Input = WebSocket.Input.ws_msg (WebSocket.Message.decoded f) b in
      let (u, d) =
        server_done-carries now (record l { up = up }) (WebSocket.step l.server (now, i))
          (event_of f) [] p
          (step-Supplies now l.server i (event_of f) [] (λ heard. read-Supplies heard now f b)) in
      (
        (o, listen-IsListening now l.server i p),
        u ∙ ap (λ x. l.received ++ events x) (sym e) ∙ sym (append-nil (upward l)),
        d,
      )

  move-Carries :
      (e : Event) → AreOpen (move l (now, e)) → Carries l (said_by e) (told_by e) (move l (now, e))
  unfolding move
  move-Carries (Event.client_sends e w) =
      client_takes-Carries (back_msg (some e) w) (event_of e)
        (λ last. send-Contributes last now e w)
  move-Carries (Event.client_stops b w) =
      client_takes-Carries (stop b w) [] (λ last. stop-Contributes last now b w)
  move-Carries (Event.client_drops w) =
      client_takes-Carries (back_msg none w) [] (λ last. drop-Contributes last now w)
  move-Carries (Event.client_timer millis w) =
      client_takes-Carries (deadline millis w) [] (λ last. timer-Contributes last now millis w)
  move-Carries (Event.client_reads b) = client_reads-Carries b l.down refl
  move-Carries (Event.session_sends e b) =
      server_takes-Carries (WebSocket.Input.back_msg (some e) b) (message_of e)
        (λ heard. tells-Supplies heard now e b)
  move-Carries Event.server_timer =
      server_takes-Carries WebSocket.Input.deadline [] (λ heard. timer-Supplies heard now)
  move-Carries (Event.server_reads b) = server_reads-Carries b l.up refl
  move-Carries Event.client_cut =
      client_takes-Carries Input.stream_end [] (λ last. cut-Contributes last now)
  move-Carries Event.server_cut =
      server_takes-Carries WebSocket.Input.stream_end [] (λ heard. cut-Supplies heard now)

-- While both tasks of a WebSocket run, it carries events in both directions without loss, doubling or
-- change of order: what the session has received and then what is on its way to it are what the
-- program of the client sent, and what that program was handed and then what is on its way to it are
-- what the session sent. The keepalives of the tasks appear on neither side.
pub moves-carries :
    (l : Link) (es : List (ℕ × Event))
    → AreOpen (moves l es)
    → AreOpen l
      × (upward (moves l es) ≡ upward l ++ said es)
      × (downward (moves l es) ≡ downward l ++ told es)
unfolding moves said told
moves-carries l [] o = (o, sym (append-nil (upward l)), sym (append-nil (downward l)))
moves-carries l ((now, e) ∷ es) o =
    let (p, u, d) = moves-carries (move l (now, e)) es o in
    let (q, v, f) = move-Carries now l e p in
    (
      q,
      u ∙ ap (λ x. x ++ said es) v ∙ append_assoc (upward l) (said_by e) (said es),
      d ∙ ap (λ x. x ++ told es) f ∙ append_assoc (downward l) (told_by e) (told es),
    )
