-- ===== src/Session/Protocol.antt =====
-- server/gateway/src/server/session.rs: the order of the messages that a session sends its client.
use voices.Common.{
  ℕ, ◌≡◌, Bool, true, false, Option, none, some, List, [], ◌∷◌, ◌&&◌, refl, ◌==◌, Bool-cases, inl,
  inr, ap, sym, subst, ◌∙◌,
}
use voices.Presence.{ChannelEvent, ChannelEventKind}
use voices.VoiceServer.Requests.{Result, ok, err}
use voices.Session.{ServerSession, ClientEvent, VoiceHandle, Out, End}
use voices.Session.Join.{Answers, Joined, initialize_voice_connection}
use voices.Session.Stages.{outside, initialize-Follows}
use voices.Session.Run.{
  Running, running, ended, Input, status_done, event, chan_event, step, run, take, handle_event,
  handle_chan_event, stop_voice, stop_with, join_from, after_join, prepend, end_with, stopped,
  finish, voice_lost, while_in, tell, kind_sent, join_failed,
}
use voices.Session.Modes.{
  Mode, idle, in_voice, next_mode, next_out, accepts, mode_of, Fits, Reaches, accepts-++,
  initialize-Reaches, prepend-Fits, drop_voice-accepts, disconnect_sent-accepts,
}

stop_with-Fits :
    (reached : Bool) (s : ServerSession) (h : Option VoiceHandle)
    → s.voice ≡ h
    → ((stop_with reached s h).0.voice ≡ none)
      × (accepts (mode_of h) (stop_with reached s h).1 ≡ some idle)
unfolding accepts
stop_with-Fits reached s none e = (e, refl)
stop_with-Fits reached s (some v) e = (refl, disconnect_sent-accepts (s.receiving && reached) v)

module _ (s : ServerSession) where
  abbrev before : Mode
  before = mode_of s.voice

  end_with-Fits : (e : End) (m : Mode) → Fits m (end_with e s)
  end_with-Fits e m = (m, drop_voice-accepts m s.voice)

  stopped-Fits : (reached : Bool) → Fits before (stopped (stop_voice reached s))
  unfolding stop_voice
  stopped-Fits reached =
      let (gone, b) = stop_with-Fits reached s s.voice refl in
      b ∙ ap (λ v. some (mode_of v)) (sym gone)

  finish-Fits : (reached : Bool) → Fits before (finish (stop_voice reached s))
  unfolding stop_voice
  finish-Fits reached = (idle, (stop_with-Fits reached s s.voice refl).1)

  none-Fits : Fits before (running s, [])
  unfolding accepts
  none-Fits = refl

  after_join-Fits :
      (reached : Bool) (channel_id : ℕ) (m : Mode) (out : List Out)
      (r : Result (Option VoiceHandle) End)
      → s.voice ≡ none
      → Reaches m out r
      → Fits m (prepend out (after_join reached s channel_id r))
  unfolding accepts next_out next_mode
  after_join-Fits reached channel_id m out (ok (some h)) e f = accepts-++ m in_voice out [] f
  after_join-Fits reached channel_id m out (ok none) e f =
      prepend-Fits m idle out (join_failed (s.receiving && reached) s channel_id) f
        (failed-Fits (s.receiving && reached))
    where
      failed-Fits : (b : Bool) → Fits idle (join_failed b s channel_id)
      failed-Fits true = ap (λ v. some (mode_of v)) (sym e)
      failed-Fits false = end_with-Fits End.failed idle
  after_join-Fits reached channel_id m out (err x) e (k, f) =
      prepend-Fits m k out (end_with x s) f (end_with-Fits x k)

  join_from-Fits :
      (reached : Bool) (a : Answers) (channel_id : ℕ)
      → s.voice ≡ none
      → Fits idle (join_from reached a channel_id s)
  unfolding join_from
  join_from-Fits reached a channel_id e =
      let j : Joined = initialize_voice_connection a s channel_id in
      after_join-Fits reached channel_id idle j.0 j.1 e
        (initialize-Reaches s channel_id outside j (initialize-Follows a s channel_id))

  tell-Fits :
      (b : Bool) (src : ℕ) (k : ChannelEventKind) (h : VoiceHandle)
      → s.voice ≡ some h
      → Fits before (tell b s (kind_sent src k))
  unfolding accepts next_out next_mode
  tell-Fits true src (ChannelEventKind.joined name) h e = rw (e) refl
  tell-Fits true src (ChannelEventKind.left name) h e = rw (e) refl
  tell-Fits false src k h e = end_with-Fits End.failed before

  chan_event-Fits :
      (reached : Bool) (e : ChannelEvent) (h : VoiceHandle)
      → s.voice ≡ some h
      → Fits before (handle_chan_event reached s e)
  unfolding handle_chan_event
  chan_event-Fits reached e h v = elim (Bool-cases (s.client_id == e.source)) [
    | inl c ↦ rw (c) none-Fits
    | inr c ↦ rw (c) (tell-Fits (s.receiving && reached) e.source_id e.kind h v)
  ]

  lost-Fits : (b : Bool) (h : VoiceHandle) → s.voice ≡ some h → Fits before (voice_lost b s)
  unfolding accepts next_out next_mode
  lost-Fits true h e = rw (e) refl
  lost-Fits false h e = end_with-Fits End.failed before

  while_in-Fits :
      (v : Option VoiceHandle) (r : Running × List Out)
      → s.voice ≡ v
      → ((h : VoiceHandle) → s.voice ≡ some h → Fits before r)
      → Fits before (while_in v s r)
  while_in-Fits none r e f = none-Fits
  while_in-Fits (some h) r e f = f h e

event-Fits :
    (s : ServerSession) (reached : Bool) (a : Answers) (e : ClientEvent)
    → Fits (mode_of s.voice) (handle_event reached a s e)
unfolding handle_event stop_voice
event-Fits s reached a (ClientEvent.init id name) = stopped-Fits s reached
event-Fits s reached a ClientEvent.disconnect = stopped-Fits s reached
event-Fits s reached a ClientEvent.leave = stopped-Fits s reached
event-Fits s reached a (ClientEvent.udp_announce addr) = stopped-Fits s reached
event-Fits s reached a (ClientEvent.keepalive t) = end_with-Fits s End.panicked (mode_of s.voice)
event-Fits s reached a (ClientEvent.join channel_id) =
    let (s', out) = stop_voice reached s in
    let (gone, b) = stop_with-Fits reached s s.voice refl in
    prepend-Fits (mode_of s.voice) idle out (join_from reached a channel_id s') b
      (join_from-Fits s' reached a channel_id gone)

take-Fits : (s : ServerSession) (i : Input) → Fits (mode_of s.voice) (take s i)
unfolding take
take-Fits s (status_done reached) =
    while_in-Fits s s.voice (voice_lost (s.receiving && reached) s) refl
      (lost-Fits s (s.receiving && reached))
take-Fits s (event (some e) reached a) = event-Fits s reached a e
take-Fits s (event none reached a) = finish-Fits s reached
take-Fits s (chan_event e reached) =
    while_in-Fits s s.voice (handle_chan_event reached s e) refl (chan_event-Fits s reached e)

abbrev Starts : Mode → Running → Type 0
Starts m (running s) = m ≡ mode_of s.voice
Starts m (ended e) = Unit

Fits-Starts :
    (m : Mode) (r : Running) (out : List Out)
    → Fits m (r, out)
    → (k : Mode) × (accepts m out ≡ some k) × Starts k r
Fits-Starts m (running s) out f = (mode_of s.voice, f, refl)
Fits-Starts m (ended e) out (k, f) = (k, f, tt)

step-Fits : (m : Mode) (r : Running) (i : Input) → Starts m r → Fits m (step r i)
unfolding step accepts
step-Fits m (running s) i e = subst (λ k. Fits k (take s i)) (sym e) (take-Fits s i)
step-Fits m (ended e) i u = (m, refl)

nothing-Fits : (m : Mode) (r : Running) → Starts m r → Fits m (r, [])
unfolding accepts
nothing-Fits m (running s) e = ap some e
nothing-Fits m (ended e) u = (m, refl)

run-Fits : (m : Mode) (r : Running) (is : List Input) → Starts m r → Fits m (run r is)
unfolding run
run-Fits m r [] e = nothing-Fits m r e
run-Fits m r (i ∷ is) e =
    let (r', out) = step r i in
    let (k, f, st) = Fits-Starts m r' out (step-Fits m r i e) in
    prepend-Fits m k out (run r' is) f (run-Fits k r' is st)

-- From a session without a voice connection, on any inputs and with any answers, the messages to the
-- client come in the order of the protocol: `JoinError` and `UdpAnnounce` only where no connection is
-- open, `Ready` only after `UdpAnnounce`, `Joined`, `Left` and `Disconnected` only after `Ready` and
-- before the next `Disconnected`. A session that still runs has a voice connection just when the
-- messages say so. A `Disconnected` whose send fails counts as sent: its error is ignored.
pub run-IsProtocol :
    (s : ServerSession) (is : List Input) → s.voice ≡ none → Fits idle (run (running s) is)
run-IsProtocol s is e = run-Fits idle (running s) is (ap mode_of (sym e))
