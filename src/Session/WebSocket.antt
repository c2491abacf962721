-- ===== src/Session/WebSocket.antt =====
-- server/gateway/src/server/ws.rs: `ControlStreamPriv`, the task between the WebSocket of a client and
-- its session. Whether a send succeeds is an input. When the session is gone, `recv` yields `None` at
-- once and the loop goes on.
use voices.Common.{
  ◌≢◌, ◌⊎◌, ◌⊎◌, ℕ, ◌+◌, ◌≡◌, Bool, true, false, Option, none, some, List, [], ◌∷◌, ◌++◌, leb, refl,
  ap, ◌∙◌, if◌then◌else◌, inl, inr,
}
use voices.Session.{ClientEvent, ServerEvent}

pub data Message : Type 0 where
  close undecodable : Message
  decoded : ClientEvent → Message

-- What the loop takes: a frame or the end of the stream, an event of the session, or the deadline.
pub data Input : Type 0 where
  stream_end stream_error : Input
  ws_msg : Message → Bool → Input
  back_msg : Option ServerEvent → Bool → Input
  deadline : Input

pub data Effect : Type 0 where
  forwarded : ClientEvent → Effect
  sent_json : ServerEvent → Effect
  back_closed ws_closed : Effect

pub data Task : Type 0 where
  -- since when nothing came from the client
  listening : ℕ → Task
  closed failed : Task

-- 2.5 seconds
abbrev pub keepalive_time : ℕ
keepalive_time = 2500

abbrev answered : ℕ → Bool → Effect → Task × List Effect
answered now true e = (listening now, e ∷ [])
answered now false e = (failed, [])

-- `handle_incoming_message`, and what `run` makes of it.
unfoldable pub handle_incoming_message : ℕ → Bool → Message → Task × List Effect
handle_incoming_message now ok close = (closed, ws_closed ∷ [])
handle_incoming_message now ok undecodable = (failed, [])
handle_incoming_message now ok (decoded (ClientEvent.keepalive t)) =
    answered now ok (sent_json (ServerEvent.keepalive t))
handle_incoming_message now ok (decoded e) = answered now ok (forwarded e)

-- A branch of the `select!` of `run`.
unfoldable pub listen : ℕ → ℕ → Input → Task × List Effect
unfolding handle_incoming_message
listen last now stream_end = (failed, back_closed ∷ [])
listen last now stream_error = (failed, [])
listen last now (ws_msg m ok) = handle_incoming_message now ok m
listen last now (back_msg none ok) = (listening last, [])
listen last now (back_msg (some e) true) = (listening last, sent_json e ∷ [])
listen last now (back_msg (some e) false) = (failed, [])
listen last now deadline =
    if leb (last + keepalive_time) now
    then (closed, back_closed ∷ ws_closed ∷ [])
    else (listening last, [])

unfoldable pub step : Task → ℕ × Input → Task × List Effect
unfolding listen
step (listening last) (now, i) = listen last now i
step closed i = (closed, [])
step failed i = (failed, [])

abbrev prepend : List Effect → Task × List Effect → Task × List Effect
prepend out (t, outs) = (t, out ++ outs)

unfoldable pub run : Task → List (ℕ × Input) → Task × List Effect
run t [] = (t, [])
run t (i ∷ is) = let (t', out) = step t i in prepend out (run t' is)

-- What a task that keeps running passes on for an input: an event of the client to the session, a
-- keepalive back to the client, and a message of the session to the client.
unfoldable pub passed_on : Input → List Effect
passed_on (ws_msg (decoded (ClientEvent.keepalive t)) ok) = sent_json (ServerEvent.keepalive t) ∷ []
passed_on (ws_msg (decoded e) ok) = forwarded e ∷ []
passed_on (back_msg (some e) ok) = sent_json e ∷ []
passed_on i = []

unfoldable pub all_passed_on : List (ℕ × Input) → List Effect
unfolding passed_on
all_passed_on [] = []
all_passed_on ((now, i) ∷ is) = passed_on i ++ all_passed_on is

abbrev pub heard : ℕ → ℕ → Input → ℕ
heard last now (ws_msg m ok) = now
heard last now i = last

-- The time of the last frame from the client.
unfoldable pub last_heard : ℕ → List (ℕ × Input) → ℕ
last_heard last [] = last
last_heard last ((now, i) ∷ is) = last_heard (heard last now i) is

-- From an end no run gets back.
ended-run : (t : Task) (is : List (ℕ × Input)) → (t ≡ closed) ⊎ (t ≡ failed) → (run t is).0 ≡ t
unfolding run step
ended-run t [] e = refl
ended-run closed (i ∷ is) e = ended-run closed is (inl refl)
ended-run failed (i ∷ is) e = ended-run failed is (inr refl)
ended-run (listening n) (i ∷ is) (inl e) = cc e
ended-run (listening n) (i ∷ is) (inr e) = cc e

-- What holds of one step after which the task still listens.
abbrev Goes : ℕ → ℕ → Input → Task × List Effect → Type 0
Goes last now i (listening k, out) = (out ≡ passed_on i) × (k ≡ heard last now i)
Goes last now i _ = Unit

answered-Goes :
    (last now : ℕ) (ok : Bool) (e : ClientEvent)
    → Goes last now (ws_msg (decoded e) ok) (handle_incoming_message now ok (decoded e))
unfolding handle_incoming_message passed_on
answered-Goes last now true (ClientEvent.init id name) = (refl, refl)
answered-Goes last now true (ClientEvent.join id) = (refl, refl)
answered-Goes last now true ClientEvent.leave = (refl, refl)
answered-Goes last now true (ClientEvent.udp_announce a) = (refl, refl)
answered-Goes last now true ClientEvent.disconnect = (refl, refl)
answered-Goes last now true (ClientEvent.keepalive t) = (refl, refl)
answered-Goes last now false (ClientEvent.init id name) = tt
answered-Goes last now false (ClientEvent.join id) = tt
answered-Goes last now false ClientEvent.leave = tt
answered-Goes last now false (ClientEvent.udp_announce a) = tt
answered-Goes last now false ClientEvent.disconnect = tt
answered-Goes last now false (ClientEvent.keepalive t) = tt

deadline-Goes :
    (last now : ℕ) (b : Bool)
    → Goes last now deadline
        (if b then (closed, back_closed ∷ ws_closed ∷ []) else (listening last, []))
unfolding passed_on
deadline-Goes last now true = tt
deadline-Goes last now false = (refl, refl)

listen-Goes : (last now : ℕ) (i : Input) → Goes last now i (listen last now i)
unfolding listen passed_on handle_incoming_message
listen-Goes last now stream_end = tt
listen-Goes last now stream_error = tt
listen-Goes last now (ws_msg close ok) = tt
listen-Goes last now (ws_msg undecodable ok) = tt
listen-Goes last now (ws_msg (decoded e) ok) = answered-Goes last now ok e
listen-Goes last now (back_msg none ok) = (refl, refl)
listen-Goes last now (back_msg (some e) true) = (refl, refl)
listen-Goes last now (back_msg (some e) false) = tt
listen-Goes last now deadline = deadline-Goes last now (leb (last + keepalive_time) now)

ended-not-listening : (t : Task) (n : ℕ) → (t ≡ closed) ⊎ (t ≡ failed) → t ≢ listening n
ended-not-listening t n (inl e) f = cc (e, f)
ended-not-listening t n (inr e) f = cc (e, f)

-- While the task of a WebSocket runs, nothing is lost, added or reordered: every event of the client
-- but a keepalive goes to the session, each keepalive back to the client, and every message of the
-- session to the client; and its deadline counts from the last frame of the client.
pub run-relays :
    (last n : ℕ) (is : List (ℕ × Input))
    → (run (listening last) is).0 ≡ listening n
    → ((run (listening last) is).1 ≡ all_passed_on is) × (n ≡ last_heard last is)
unfolding run step all_passed_on last_heard
run-relays last n [] h = (refl, cc h)
run-relays last n ((now, i) ∷ is) h =
    after (listen last now i) (listen-Goes last now i) h (λ k f. run-relays k n is f)
  where
    after :
        (r : Task × List Effect)
        → Goes last now i r
        → (run r.0 is).0 ≡ listening n
        → ((k : ℕ)
            → (run (listening k) is).0 ≡ listening n
            → ((run (listening k) is).1 ≡ all_passed_on is) × (n ≡ last_heard k is))
        → (r.1 ++ (run r.0 is).1 ≡ passed_on i ++ all_passed_on is)
          × (n ≡ last_heard (heard last now i) is)
    after (listening k, out) (e, f) g ih =
        let (a, b) = ih k g in (cc (e, a), b ∙ ap (λ x. last_heard x is) f)
    after (closed, out) e g ih =
        absurd (ended-not-listening (run closed is).0 n (inl (ended-run closed is (inl refl))) g)
    after (failed, out) e g ih =
        absurd (ended-not-listening (run failed is).0 n (inr (ended-run failed is (inr refl))) g)
