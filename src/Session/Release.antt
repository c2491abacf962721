-- ===== src/Session/Release.antt =====
-- server/gateway/src/server/session.rs: what a session takes, it gives back.
use voices.Common.{
  ℕ, ap, sym, subst, ◌+◌, ◌≡◌, Bool, true, false, Option, none, some, List, [], ◌∷◌, ◌++◌, ◌&&◌,
  arith, refl, ◌==◌, Bool-cases, inl, inr,
}
use voices.Presence.{ChannelEvent, ChannelEventKind}
use voices.VoiceServer.Requests.{Result, ok, err}
use voices.Session.{
  ServerSession, ClientEvent, ServerEvent, VoiceHandle, Out, End, sent, drop_voice,
}
use voices.Session.Join.{Answers, Joined, initialize_voice_connection}
use voices.Session.Counts.{
  rooms_joined, rooms_left, readies, hosts_left, rooms_joined-++, rooms_left-++, readies-++,
  hosts_left-++,
}
use voices.Session.Stages.{
  Stage, outside, in_room, announced, Follows, gives_up, not_found, opens, joins, fails_in_room,
  announces, fails_announced, establishes, gets_ready, initialize-Follows,
}
use voices.Session.Run.{
  disconnect_sent, Running, running, ended, Input, status_done, event, chan_event, step, run, take,
  handle_event, handle_chan_event, stop_voice, stop_with, join_from, after_join, prepend, end_with,
  stopped, finish, voice_lost, while_in, tell, kind_sent, join_failed,
}

abbrev pub handles : Option VoiceHandle → ℕ
handles none = 0
handles (some h) = 1

abbrev pub held : Running → ℕ
held (running s) = handles s.voice
held (ended e) = 0

abbrev gained : Result (Option VoiceHandle) End → ℕ
gained (ok h) = handles h
gained (err e) = 0

abbrev in_hand : Stage → ℕ
in_hand outside = 0
in_hand (in_room room) = 1
in_hand (announced room src) = 1

-- From `n` joined rooms and `m` voice handles to `k` handles, each with its room.
abbrev pub Balances : ℕ → ℕ → ℕ → List Out → Type 0
Balances n m k out =
    (n + rooms_joined out ≡ k + rooms_left out) × (m + readies out ≡ k + hosts_left out)

initialize-Balances :
    (s : ServerSession) (channel_id : ℕ) (st : Stage) (j : Joined)
    → Follows s channel_id st j
    → Balances (in_hand st) 0 (gained j.1) j.0
unfolding rooms_joined rooms_left readies hosts_left
initialize-Balances s channel_id st j (gives_up e) = ground arith
initialize-Balances s channel_id st j not_found = ground arith
initialize-Balances s channel_id st j (opens host req k f) =
    ground (arith, initialize-Balances s channel_id outside k f)
initialize-Balances s channel_id st j (joins room src k f) =
    ground (arith, initialize-Balances s channel_id (in_room room) k f)
initialize-Balances s channel_id st j (fails_in_room room) = ground arith
initialize-Balances s channel_id st j (announces room addr src k f) =
    ground (arith, initialize-Balances s channel_id (announced room src) k f)
initialize-Balances s channel_id st j (fails_announced room src) = ground arith
initialize-Balances s channel_id st j (establishes room src req k f) =
    ground (arith, initialize-Balances s channel_id (announced room src) k f)
initialize-Balances s channel_id st j (gets_ready room src r) = ground arith

Balances-++ :
    (n m k : ℕ) (os us : List Out)
    → Balances n n m os
    → Balances m m k us
    → Balances n n k (os ++ us)
Balances-++ n m k os us a b = (
  omega (arith, a.0, b.0, rooms_joined-++ os us, rooms_left-++ os us),
  omega (arith, a.1, b.1, readies-++ os us, hosts_left-++ os us),
)

-- What a step does, from the handles held before.
abbrev Step : ℕ → Running × List Out → Type 0
Step n (r, out) = Balances n n (held r) out

prepend-Step :
    (n m : ℕ) (os : List Out) (r : Running × List Out)
    → Balances n n m os
    → Step m r
    → Step n (prepend os r)
prepend-Step n m os (r, us) a b = Balances-++ n m (held r) os us a b

drop_voice-Balances : (h : Option VoiceHandle) → Balances (handles h) (handles h) 0 (drop_voice h)
unfolding rooms_joined rooms_left readies hosts_left
drop_voice-Balances none = ground arith
drop_voice-Balances (some v) = ground arith

disconnect_sent-Balances :
    (b : Bool) (v : VoiceHandle) → Balances 1 1 0 (drop_voice (some v) ++ disconnect_sent b)
unfolding rooms_joined rooms_left readies hosts_left
disconnect_sent-Balances true v = ground arith
disconnect_sent-Balances false v = ground arith

stop_with-Balances :
    (reached : Bool) (s : ServerSession) (h : Option VoiceHandle)
    → s.voice ≡ h
    → ((stop_with reached s h).0.voice ≡ none)
      × Balances (handles h) (handles h) 0 (stop_with reached s h).1
unfolding rooms_joined rooms_left readies hosts_left
stop_with-Balances reached s none e = (e, ground arith)
stop_with-Balances reached s (some v) e =
    (refl, disconnect_sent-Balances (s.receiving && reached) v)

module _ (s : ServerSession) where
  abbrev before : ℕ
  before = handles s.voice

  end_with-Step : (e : End) → Step before (end_with e s)
  end_with-Step e = drop_voice-Balances s.voice

  stopped-Step : (reached : Bool) → Step before (stopped (stop_voice reached s))
  unfolding stop_voice
  stopped-Step reached =
      let (gone, b) = stop_with-Balances reached s s.voice refl in
      subst (λ v. Balances before before (handles v) (stop_with reached s s.voice).1) (sym gone) b

  finish-Step : (reached : Bool) → Step before (finish (stop_voice reached s))
  unfolding stop_voice
  finish-Step reached = (stop_with-Balances reached s s.voice refl).1

  -- A message other than `Ready` changes no count.
  quiet-Step : (e : ServerEvent) → readies (sent e ∷ []) ≡ 0 → Step before (running s, sent e ∷ [])
  unfolding rooms_joined rooms_left readies hosts_left
  quiet-Step e h = ground (arith, h)

  none-Step : Step before (running s, [])
  unfolding rooms_joined rooms_left readies hosts_left
  none-Step = ground arith

  join_failed-Step : (b : Bool) (channel_id : ℕ) → Step before (join_failed b s channel_id)
  unfolding readies
  join_failed-Step true channel_id = quiet-Step (ServerEvent.join_error channel_id) refl
  join_failed-Step false channel_id = end_with-Step End.failed

  after_join-Step :
      (reached : Bool) (channel_id : ℕ) (r : Result (Option VoiceHandle) End)
      → s.voice ≡ none
      → Step (gained r) (after_join reached s channel_id r)
  unfolding rooms_joined rooms_left readies hosts_left
  after_join-Step reached channel_id (ok (some h)) e = ground arith
  after_join-Step reached channel_id (ok none) e =
      subst (λ n. Step n (join_failed (s.receiving && reached) s channel_id)) (ap handles e)
        (join_failed-Step (s.receiving && reached) channel_id)
  after_join-Step reached channel_id (err x) e =
      subst (λ n. Step n (end_with x s)) (ap handles e) (end_with-Step x)

  join_from-Step :
      (reached : Bool) (a : Answers) (channel_id : ℕ)
      → s.voice ≡ none
      → Step 0 (join_from reached a channel_id s)
  unfolding join_from
  join_from-Step reached a channel_id e =
      let j : Joined = initialize_voice_connection a s channel_id in
      prepend-Step 0 (gained j.1) j.0 (after_join reached s channel_id j.1)
        (initialize-Balances s channel_id outside j (initialize-Follows a s channel_id))
        (after_join-Step reached channel_id j.1 e)

  tell-Step : (b : Bool) (src : ℕ) (k : ChannelEventKind) → Step before (tell b s (kind_sent src k))
  unfolding readies
  tell-Step true src (ChannelEventKind.joined name) =
      quiet-Step (kind_sent src (ChannelEventKind.joined name)) refl
  tell-Step true src (ChannelEventKind.left name) =
      quiet-Step (kind_sent src (ChannelEventKind.left name)) refl
  tell-Step false src k = end_with-Step End.failed

  chan_event-Step :
      (reached : Bool) (e : ChannelEvent) → Step before (handle_chan_event reached s e)
  unfolding handle_chan_event
  chan_event-Step reached e = elim (Bool-cases (s.client_id == e.source)) [
    | inl h ↦ rw (h) none-Step
    | inr h ↦ rw (h) (tell-Step (s.receiving && reached) e.source_id e.kind)
  ]

  lost-Step : (b : Bool) → Step before (voice_lost b s)
  unfolding rooms_joined rooms_left readies hosts_left
  lost-Step true = drop_voice-Balances s.voice
  lost-Step false = end_with-Step End.failed

  while_in-Step :
      (h : Option VoiceHandle) (r : Running × List Out)
      → Step before r
      → Step before (while_in h s r)
  while_in-Step none r st = none-Step
  while_in-Step (some h) r st = st

module _ (s : ServerSession) where
  event-Step :
      (reached : Bool) (a : Answers) (e : ClientEvent)
      → Step (handles s.voice) (handle_event reached a s e)
  unfolding handle_event stop_voice
  event-Step reached a (ClientEvent.init id name) = stopped-Step s reached
  event-Step reached a ClientEvent.disconnect = stopped-Step s reached
  event-Step reached a ClientEvent.leave = stopped-Step s reached
  event-Step reached a (ClientEvent.udp_announce addr) = stopped-Step s reached
  event-Step reached a (ClientEvent.keepalive t) = end_with-Step s End.panicked
  event-Step reached a (ClientEvent.join channel_id) =
      let (s', out) = stop_voice reached s in
      let (gone, b) = stop_with-Balances reached s s.voice refl in
      prepend-Step (handles s.voice) 0 out (join_from reached a channel_id s') b
        (join_from-Step s' reached a channel_id gone)

  take-Step : (i : Input) → Step (handles s.voice) (take s i)
  unfolding take
  take-Step (status_done reached) =
      while_in-Step s s.voice (voice_lost (s.receiving && reached) s)
        (lost-Step s (s.receiving && reached))
  take-Step (event (some e) reached a) = event-Step reached a e
  take-Step (event none reached a) = finish-Step s reached
  take-Step (chan_event e reached) =
      while_in-Step s s.voice (handle_chan_event reached s e) (chan_event-Step s reached e)

step-Step : (r : Running) (i : Input) → Step (held r) (step r i)
unfolding step rooms_joined rooms_left readies hosts_left
step-Step (running s) i = take-Step s i
step-Step (ended e) i = ground arith

run-Step : (r : Running) (is : List Input) → Step (held r) (run r is)
unfolding run rooms_joined rooms_left readies hosts_left
run-Step r [] = ground arith
run-Step r (i ∷ is) =
    prepend-Step (held r) (held (step r i).0) (step r i).1 (run (step r i).0 is) (step-Step r i)
      (run-Step (step r i).0 is)

-- From a session that holds no voice connection, on any inputs and with any answers: as many rooms
-- were left as were joined, and as many leaves were sent to voice hosts as `Ready` to the client; but
-- one less of each where the session still runs and holds a voice connection.
pub run-releases :
    (s : ServerSession) (is : List Input)
    → s.voice ≡ none
    → Balances 0 0 (held (run (running s) is).0) (run (running s) is).1
run-releases s is e =
    subst (λ n. Balances n n (held (run (running s) is).0) (run (running s) is).1) (ap handles e)
      (run-Step (running s) is)
