-- ===== src/Session/Modes.antt =====
-- server/gateway/src/server/session.rs: the protocol of a session's messages, as an automaton.
use voices.Common.{
  ℕ, ◌≡◌, Bool, true, false, Option, none, some, List, [], ◌∷◌, ◌++◌, refl, inl, inr, Option-cases,
  ◌∙◌,
}
use voices.VoiceServer.Requests.{Result, ok, err}
use voices.Session.{
  ServerSession, ServerEvent, VoiceHandle, Out, End, sent, unsent, open_connection, join_room,
  establish_session, drop_voice,
}
use voices.Session.Join.{info_of, Joined}
use voices.Session.Stages.{
  Stage, outside, in_room, announced, Follows, gives_up, not_found, opens, joins, fails_in_room,
  announces, fails_announced, establishes, gets_ready,
}
use voices.Session.Run.{disconnect_sent, Running, running, ended, prepend}

-- What the client knows of its voice connection.
pub data Mode : Type 0 where
  idle announcing in_voice : Mode

-- The messages that may come in a mode, and the mode that they lead to.
unfoldable pub next_mode : Mode → ServerEvent → Option Mode
next_mode idle (ServerEvent.udp_announce addr src) = some announcing
next_mode idle (ServerEvent.join_error id) = some idle
next_mode announcing (ServerEvent.ready r) = some in_voice
next_mode in_voice (ServerEvent.joined p) = some in_voice
next_mode in_voice (ServerEvent.left p) = some in_voice
next_mode in_voice ServerEvent.disconnected = some idle
next_mode m e = none

unfoldable pub next_out : Mode → Out → Option Mode
unfolding next_mode
next_out m (sent e) = next_mode m e
next_out m (unsent e) = next_mode m e
next_out m _ = some m

abbrev pub and_then : Option Mode → (Mode → Option Mode) → Option Mode
and_then none f = none
and_then (some m) f = f m

unfoldable pub accepts : Mode → List Out → Option Mode
unfolding next_out
accepts m [] = some m
accepts m (o ∷ os) = and_then (next_out m o) (λ k. accepts k os)

abbrev pub mode_of : Option VoiceHandle → Mode
mode_of none = idle
mode_of (some h) = in_voice

-- The effects are accepted, and a session that still runs is in the mode of its voice connection.
abbrev pub Fits : Mode → Running × List Out → Type 0
Fits m (running s, out) = accepts m out ≡ some (mode_of s.voice)
Fits m (ended e, out) = (k : Mode) × (accepts m out ≡ some k)

abbrev pub Reaches : Mode → List Out → Result (Option VoiceHandle) End → Type 0
Reaches m out (ok h) = accepts m out ≡ some (mode_of h)
Reaches m out (err e) = (k : Mode) × (accepts m out ≡ some k)

abbrev pub stage_mode : Stage → Mode
stage_mode outside = idle
stage_mode (in_room room) = idle
stage_mode (announced room src) = announcing

absurd_none : {A : Type 0} {k : Mode} → none ≡ some k → A
absurd_none h = cc h

pub accepts-++ :
    (m k : Mode) (os us : List Out) → accepts m os ≡ some k → accepts m (os ++ us) ≡ accepts k us
unfolding accepts
accepts-++ m k [] us h = cc h
accepts-++ m k (o ∷ os) us h = elim (Option-cases (next_out m o)) [
  | inl e ↦ absurd_none (rw (e) at h)
  | inr (j, e) ↦ rw (e) (accepts-++ j k os us (rw (e) at h))
]

Reaches-step :
    (m k : Mode) (o : Out) (os : List Out) (r : Result (Option VoiceHandle) End)
    → next_out m o ≡ some k
    → Reaches k os r
    → Reaches m (o ∷ os) r
unfolding accepts
Reaches-step m k o os (ok h) e f = rw (e) f
Reaches-step m k o os (err x) (e) (j, f) = (j, rw (e) f)

pub initialize-Reaches :
    (s : ServerSession) (channel_id : ℕ) (st : Stage) (j : Joined)
    → Follows s channel_id st j
    → Reaches (stage_mode st) j.0 j.1
unfolding accepts next_out next_mode
initialize-Reaches s channel_id st j (gives_up e) = (idle, refl)
initialize-Reaches s channel_id st j not_found = refl
initialize-Reaches s channel_id st j (opens host req k f) =
    Reaches-step idle idle (open_connection host req) k.0 k.1 refl
      (initialize-Reaches s channel_id outside k f)
initialize-Reaches s channel_id st j (joins room src k f) =
    Reaches-step idle idle (join_room room.state (info_of s src)) k.0 k.1 refl
      (initialize-Reaches s channel_id (in_room room) k f)
initialize-Reaches s channel_id st j (fails_in_room room) = (idle, refl)
initialize-Reaches s channel_id st j (announces room addr src k f) =
    Reaches-step idle announcing (sent (ServerEvent.udp_announce addr src)) k.0 k.1 refl
      (initialize-Reaches s channel_id (announced room src) k f)
initialize-Reaches s channel_id st j (fails_announced room src) = (announcing, refl)
initialize-Reaches s channel_id st j (establishes room src req k f) =
    Reaches-step announcing announcing (establish_session room.voice req) k.0 k.1 refl
      (initialize-Reaches s channel_id (announced room src) k f)
initialize-Reaches s channel_id st j (gets_ready room src r) = refl

pub prepend-Fits :
    (m k : Mode) (os : List Out) (r : Running × List Out)
    → accepts m os ≡ some k
    → Fits k r
    → Fits m (prepend os r)
prepend-Fits m k os (running s, us) e f = accepts-++ m k os us e ∙ f
prepend-Fits m k os (ended x, us) e (j, f) = (j, accepts-++ m k os us e ∙ f)

pub drop_voice-accepts : (m : Mode) (h : Option VoiceHandle) → accepts m (drop_voice h) ≡ some m
unfolding accepts next_out
drop_voice-accepts m none = refl
drop_voice-accepts m (some h) = refl

pub disconnect_sent-accepts :
    (b : Bool) (h : VoiceHandle)
    → accepts in_voice (drop_voice (some h) ++ disconnect_sent b) ≡ some idle
unfolding accepts next_out next_mode
disconnect_sent-accepts true h = refl
disconnect_sent-accepts false h = refl
