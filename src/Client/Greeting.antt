-- ===== src/Client/Greeting.antt =====
-- client/src/main.rs and server/gateway/src/server/session.rs: the program of a client with the session
-- that it talks to.
use voices.Common.{
  subst, arith, ℕ, ◌≡◌, ◌↔◌, Bool, true, false, Option, none, some, List, [], ◌∷◌, refl,
}
use voices.Session.{ClientEvent, ServerSession, ServerEvent, Out, sent, unsent, Ready}
use voices.Session.Run.{ended, Running, Input, run, running}
use voices.Session.Modes.{Mode, idle, announcing, next_mode, next_out, and_then, accepts, Fits}
use voices.Session.Protocol.{run-IsProtocol}
use voices.Control.Stream
use voices.Control.Stream.{ControlStreamError, ServerAnnounce}
use voices.Client.Setup.{setup_new}
use voices.Client.Surprise.{
  IsSurprised, Safe, after-Safe, checked-Safe, sent-Safe, main_loop-Safe, announced-Safe,
  announce_present-result, first_found-not-IsSurprised,
}
use voices.Client.Discovery.{discovery_ends, first_found, outcomes}
use voices.Client.Program.{
  ProgramError, Config, Answers, M, give, ◌>>=◌, ◌>>◌, check, sends, awaits, sets_up,
  announce_present, main_loop, decoded_key, in_voice, open_udp, async_main,
}

-- The messages that reach the client: those up to the first that cannot be sent, since then its end of
-- the channel is gone.
unfoldable pub reaching : List Out → List ServerEvent
reaching [] = []
reaching (sent e ∷ out) = e ∷ reaching out
reaching (unsent e ∷ out) = []
reaching (_ ∷ out) = reaching out

abbrev pub IsAccepted : Mode → List ServerEvent → Type 0
IsAccepted m [] = Unit
IsAccepted m (e ∷ ms) = (k : Mode) × (next_mode m e ≡ some k) × IsAccepted k ms

and_then-some :
    (o : Option Mode) (f : Mode → Option Mode) (k : Mode)
    → and_then o f ≡ some k
    → (j : Mode) × (o ≡ some j) × (f j ≡ some k)
and_then-some none f k h = absurd cc
and_then-some (some j) f k h = (j, refl, h)

reaching-IsAccepted :
    (m k : Mode) (out : List Out) → accepts m out ≡ some k → IsAccepted m (reaching out)
unfolding accepts next_out reaching
reaching-IsAccepted m k [] h = tt
reaching-IsAccepted m k (sent e ∷ out) h =
    let (j, f, g) = and_then-some (next_mode m e) (λ i. accepts i out) k h in
    (j, f, reaching-IsAccepted j k out g)
reaching-IsAccepted m k (unsent e ∷ out) h = tt
reaching-IsAccepted m k (Out.open_connection v r ∷ out) h = reaching-IsAccepted m k out h
reaching-IsAccepted m k (Out.join_room v r ∷ out) h = reaching-IsAccepted m k out h
reaching-IsAccepted m k (Out.leave_room v r ∷ out) h = reaching-IsAccepted m k out h
reaching-IsAccepted m k (Out.establish_session v r ∷ out) h = reaching-IsAccepted m k out h
reaching-IsAccepted m k (Out.leave_host v r u ∷ out) h = reaching-IsAccepted m k out h

-- The gateway refuses the join.
abbrev pub IsRefused : List ServerEvent → Type 0
IsRefused (ServerEvent.join_error id ∷ ms) = Unit
IsRefused _ = ⊥

Mode-eq : {j k : Mode} → some k ≡ some j → j ≡ k
Mode-eq e = cc e

module _ (Q : Type 0) where
  keyed-Safe :
      (is_key : List ℕ → Bool) (key : Option (List ℕ)) (f : List ℕ → M (Unit {0}))
      (inc : List ServerEvent)
      → ((k : List ℕ) → Safe Q (f k inc))
      → Safe Q ((decoded_key is_key key >>= f) inc)
  keyed-Safe is_key none f inc h = λ u. absurd u
  keyed-Safe is_key (some k) f inc h = keyed_by (is_key k)
    where
      keyed_by : (b : Bool) → Safe Q (((check b ProgramError.bad_key >> give k) >>= f) inc)
      keyed_by true = h k
      keyed_by false = λ u. absurd u

  in_voice-Safe :
      (decode : List ℕ → Option (List ℕ)) (is_key : List ℕ → Bool) (c : Config) (a : Answers)
      (ready : Ready) (inc : List ServerEvent)
      → Safe Q (in_voice decode is_key c a ready inc)
  unfolding in_voice
  in_voice-Safe decode is_key c a ready inc =
      keyed-Safe is_key (decode ready.crypt_key) _ inc λ key.
        checked-Safe Q a.recording ProgramError.no_microphone _ inc (λ u. absurd u)
          (let (e, k) = announce_present-result ready.src_id ready.present inc in
            announced-Safe Q (announce_present ready.src_id ready.present inc)
              (main_loop a a.ctrl_c) e (main_loop-Safe Q a a.ctrl_c _))

  ready-Safe :
      (decode : List ℕ → Option (List ℕ)) (is_key : List ℕ → Bool) (c : Config) (a : Answers)
      (ms : List ServerEvent)
      → IsAccepted announcing ms
      → Safe Q ((awaits Stream.await_ready >>= in_voice decode is_key c a) ms)
  unfolding Stream.await_ready Stream.next_event next_mode
  ready-Safe decode is_key c a [] h = λ u. absurd u
  ready-Safe decode is_key c a (ServerEvent.ready r ∷ ms) h = in_voice-Safe decode is_key c a r ms
  ready-Safe decode is_key c a (ServerEvent.init id ∷ ms) (k, e, h) = cc e
  ready-Safe decode is_key c a (ServerEvent.keepalive t ∷ ms) (k, e, h) = cc e
  ready-Safe decode is_key c a (ServerEvent.udp_announce x y ∷ ms) (k, e, h) = cc e
  ready-Safe decode is_key c a (ServerEvent.disconnected ∷ ms) (k, e, h) = cc e
  ready-Safe decode is_key c a (ServerEvent.joined p ∷ ms) (k, e, h) = cc e
  ready-Safe decode is_key c a (ServerEvent.left p ∷ ms) (k, e, h) = cc e
  ready-Safe decode is_key c a (ServerEvent.join_error id ∷ ms) (k, e, h) = cc e

  set_up-Safe :
      {A : Type 0} (bound connected : Bool) (f : M A) (ms : List ServerEvent)
      → Safe Q (f ms)
      → Safe Q ((sets_up (setup_new bound connected) >> f) ms)
  unfolding setup_new
  set_up-Safe false connected f ms h = λ u. absurd u
  set_up-Safe true false f ms h = λ u. absurd u
  set_up-Safe true true f ms h = h

  open_udp-Safe :
      (decode : List ℕ → Option (List ℕ)) (is_key : List ℕ → Bool) (c : Config) (a : Answers)
      (remote : ServerAnnounce) (ms : List ServerEvent)
      → IsAccepted announcing ms
      → Safe Q (open_udp decode is_key c a remote ms)
  unfolding open_udp Stream.announce_udp
  open_udp-Safe decode is_key c a remote ms h = set_up-Safe a.bound a.udp_connected _ ms (
      rw (discovery_ends remote.source_id 6 a.discovered ms (omega arith)) (
        after-Safe Q _ (first_found (outcomes 5 0 a.discovered)) _ ms
          (λ u. absurd (first_found-not-IsSurprised (outcomes 5 0 a.discovered) u))
          (λ addr e.
            sent-Safe Q a.announce_sent (ClientEvent.udp_announce addr) _ ms
              (ready-Safe decode is_key c a ms h))))

  announce-Safe :
      (decode : List ℕ → Option (List ℕ)) (is_key : List ℕ → Bool) (c : Config) (a : Answers)
      (ms : List ServerEvent)
      → IsAccepted idle ms
      → (IsRefused ms → Q)
      → Safe Q ((awaits Stream.await_voice_udp >>= open_udp decode is_key c a) ms)
  unfolding Stream.await_voice_udp Stream.next_event next_mode
  announce-Safe decode is_key c a [] h k = λ u. absurd u
  announce-Safe decode is_key c a (ServerEvent.udp_announce x y ∷ ms) (j, e, h) k =
      open_udp-Safe decode is_key c a _ ms (subst (λ i. IsAccepted i ms) (Mode-eq e) h)
  announce-Safe decode is_key c a (ServerEvent.join_error id ∷ ms) h k = λ u. k tt
  announce-Safe decode is_key c a (ServerEvent.ready r ∷ ms) (j, e, h) k = cc e
  announce-Safe decode is_key c a (ServerEvent.init id ∷ ms) (j, e, h) k = cc e
  announce-Safe decode is_key c a (ServerEvent.keepalive t ∷ ms) (j, e, h) k = cc e
  announce-Safe decode is_key c a (ServerEvent.disconnected ∷ ms) (j, e, h) k = cc e
  announce-Safe decode is_key c a (ServerEvent.joined p ∷ ms) (j, e, h) k = cc e
  announce-Safe decode is_key c a (ServerEvent.left p ∷ ms) (j, e, h) k = cc e

Fits-accepts :
    (m : Mode) (r : Running) (out : List Out)
    → Fits m (r, out)
    → (k : Mode) × (accepts m out ≡ some k)
Fits-accepts m (running s) out f = (_, f)
Fits-accepts m (ended e) out f = f

session-IsAccepted :
    (s : ServerSession) (is : List Input)
    → s.voice ≡ none
    → IsAccepted idle (reaching (run (running s) is).1)
session-IsAccepted s is e =
    let (k, f) =
      Fits-accepts idle (run (running s) is).0 (run (running s) is).1 (run-IsProtocol s is e) in
    reaching-IsAccepted idle k (run (running s) is).1 f

refused-IsSurprised :
    (decode : List ℕ → Option (List ℕ)) (is_key : List ℕ → Bool) (c : Config) (a : Answers)
    (ms : List ServerEvent)
    → IsRefused ms
    → IsSurprised ((awaits Stream.await_voice_udp >>= open_udp decode is_key c a) ms).result
unfolding Stream.await_voice_udp Stream.next_event
refused-IsSurprised decode is_key c a [] h = h
refused-IsSurprised decode is_key c a (ServerEvent.join_error id ∷ ms) h = tt
refused-IsSurprised decode is_key c a (ServerEvent.udp_announce x y ∷ ms) h = absurd h
refused-IsSurprised decode is_key c a (ServerEvent.ready r ∷ ms) h = absurd h
refused-IsSurprised decode is_key c a (ServerEvent.init id ∷ ms) h = absurd h
refused-IsSurprised decode is_key c a (ServerEvent.keepalive t ∷ ms) h = absurd h
refused-IsSurprised decode is_key c a (ServerEvent.disconnected ∷ ms) h = absurd h
refused-IsSurprised decode is_key c a (ServerEvent.joined p ∷ ms) h = absurd h
refused-IsSurprised decode is_key c a (ServerEvent.left p ∷ ms) h = absurd h

asked :
    (connected init_sent join_sent : Bool) (c : Config) (channel_id id : ℕ) (k : M (Unit {0}))
    (ms : List ServerEvent)
    → connected ≡ true
    → init_sent ≡ true
    → join_sent ≡ true
    → ((check connected ProgramError.connect_failed
          >> (sends (Stream.init init_sent c.user_id c.name)
              >> (awaits Stream.await_initialized >>= λ initialized.
                  sends (Stream.join join_sent channel_id) >> k)))
        (ServerEvent.init id ∷ ms)).result
      ≡ (k ms).result
unfolding Stream.await_initialized Stream.next_event Stream.init Stream.join Stream.send
asked true true true c channel_id id k ms e f g = refl
asked false init_sent join_sent c channel_id id k ms e f g = absurd (cc e)
asked true false join_sent c channel_id id k ms e f g = absurd (cc f)
asked true true false c channel_id id k ms e f g = absurd (cc g)

async_main-result :
    (decode : List ℕ → Option (List ℕ)) (is_key : List ℕ → Bool) (c : Config) (a : Answers)
    (channel_id id : ℕ) (ms : List ServerEvent)
    → a.connected ≡ true
    → a.init_sent ≡ true
    → a.join_sent ≡ true
    → (async_main decode is_key c a channel_id (ServerEvent.init id ∷ ms)).result
      ≡ ((awaits Stream.await_voice_udp >>= open_udp decode is_key c a) ms).result
unfolding async_main
async_main-result decode is_key c a channel_id id ms =
    asked a.connected a.init_sent a.join_sent c channel_id id
      (awaits Stream.await_voice_udp >>= open_udp decode is_key c a) ms

-- A client that connects, and whose `Init` and `Join` are sent, talks to a session without a voice
-- connection that has sent `Initialized`: whatever the session goes through, and whatever else answers
-- the client, its program ends with a message that it did not expect exactly when the first message
-- of the session after that is a `JoinError`.
pub async_main-IsSurprised :
    (decode : List ℕ → Option (List ℕ)) (is_key : List ℕ → Bool) (c : Config) (a : Answers)
    (channel_id id : ℕ) (s : ServerSession) (is : List Input)
    → s.voice ≡ none
    → a.connected ≡ true
    → a.init_sent ≡ true
    → a.join_sent ≡ true
    → IsSurprised
        (async_main decode is_key c a channel_id
          (ServerEvent.init id ∷ reaching (run (running s) is).1)).result
      ↔ IsRefused (reaching (run (running s) is).1)
async_main-IsSurprised decode is_key c a channel_id id s is v e f g =
    let ms : List ServerEvent = reaching (run (running s) is).1 in
    rw (async_main-result decode is_key c a channel_id id ms e f g) (
      announce-Safe (IsRefused ms) decode is_key c a ms (session-IsAccepted s is v) (λ h. h),
      refused-IsSurprised decode is_key c a ms,
    )
