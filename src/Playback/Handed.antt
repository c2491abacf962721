-- ===== src/Playback/Handed.antt =====
-- client/src/play.rs: what reaches the decoder in a round.
use voices.Common.{
  inr, inl, Bool-cases, ◌≡◌, Bool, true, false, Option, none, some, List, [], ◌∷◌, ◌++◌, refl, ap,
  sym, subst, ◌∙◌,
}
use mathlib.Core.List.{append_assoc, append-nil}
use voices.Playback.Ticks.{Pops, Ticks, pop-Pops, tick-Ticks}
use voices.Playback.{
  submit_input, Answers, Voice, State, pop, tick, Stream, Running, streaming, ended, Event, msg,
  due, Round, Submitted, played, undecoded, clip_failed, panicked, decode_and_submit, after_submit,
  after_tick, on_event, step, run, option_list, submitted, handed,
}

pub handed-++ : (rs us : List Submitted) → handed (rs ++ us) ≡ handed rs ++ handed us
unfolding handed
handed-++ [] us = refl
handed-++ (r ∷ rs) us =
    ap (λ xs. submitted r ++ xs) (handed-++ rs us)
    ∙ sym (append_assoc (submitted r) (handed rs) (handed us))

submitted-input : (d c : Bool) (o : Option Voice) → submitted (submit_input d c o) ≡ option_list o
submitted-input false c o = refl
submitted-input true true o = refl
submitted-input true false o = refl

pub submitted-decode :
    (a : Answers) (o : Option Voice) → submitted (decode_and_submit a o) ≡ option_list o
unfolding decode_and_submit
submitted-decode a none = submitted-input a.decoded a.clipped none
submitted-decode a (some v) = elim (Bool-cases a.converted) [
  | inl b ↦ rw (b) (submitted-input a.decoded a.clipped (some v))
  | inr b ↦ rw (b) refl
]

-- What holds of a round after which the stream goes on, given what holds of `tick` and `pop`.
pub data Turns (s : State) : Event → List Submitted → State → Type 0 where
  ticks :
      (v : Voice) (o : Option Voice) (u : State) (out : List Submitted)
      → Ticks v s o u
      → handed out ≡ option_list o
      → Turns s (msg (some v)) out u
  pops :
      (o : Option Voice) (u : State) (out : List Submitted) (r : Submitted)
      → Pops s o u
      → out ≡ r ∷ []
      → submitted r ≡ option_list o
      → Turns s due out u

abbrev pub Goes : State → Event → Running × List Submitted → Type 0
Goes s e (streaming q, out) = Turns s e out q.state
Goes s e (ended, out) = Unit

handed-one :
    (a : Answers) (o : Option Voice) (r : Submitted)
    → decode_and_submit a o ≡ r
    → handed (r ∷ []) ≡ option_list o
unfolding handed
handed-one a o r e = append-nil (submitted r) ∙ ap submitted (sym e) ∙ submitted-decode a o

submit-Goes :
    (s u : State) (e : Event) (p : Stream) (r : Submitted)
    → ((out : List Submitted) → out ≡ r ∷ [] → Turns s e out u)
    → Goes s e (after_submit p u r)
submit-Goes s u e p (played o) t = t (played o ∷ []) refl
submit-Goes s u e p (undecoded o) t = t (undecoded o ∷ []) refl
submit-Goes s u e p (clip_failed o) t = tt
submit-Goes s u e p (panicked o) t = tt

after_tick-Goes :
    (r : Round) (p : Stream) (v : Voice) (o : Option Voice) (u : State)
    → Ticks v p.state o u
    → Goes p.state (msg (some v)) (after_tick r p (o, u))
unfolding handed
after_tick-Goes r p v none u t = ticks v none u [] t refl
after_tick-Goes r p v (some w) u t =
    let d : Submitted = decode_and_submit r.answers (some w) in
    submit-Goes p.state u (msg (some v)) p d
      (λ out e. ticks v (some w) u out t (ap handed e ∙ handed-one r.answers (some w) d refl))

event-Goes : (r : Round) (p : Stream) (e : Event) → Goes p.state e (on_event r p e)
unfolding on_event
event-Goes r p (msg none) = tt
event-Goes r p (msg (some v)) =
    after_tick-Goes r p v (tick v p.state).0 (tick v p.state).1 (tick-Ticks v p.state)
event-Goes r p due =
    let d : Submitted = decode_and_submit r.answers (pop p.state).0 in
    submit-Goes p.state (pop p.state).1 due p d (λ out e.
      pops (pop p.state).0 (pop p.state).1 out d (pop-Pops p.state) e
        (submitted-decode r.answers (pop p.state).0))

pub handed-single : (r : Submitted) → handed (r ∷ []) ≡ submitted r
unfolding handed
handed-single r = append-nil (submitted r)

-- A stream that goes on after a list of rounds, round by round.
pub data Streams : State → List Round → List Submitted → State → Type 0 where
  stays : (s : State) → Streams s [] [] s
  goes :
      (s t u : State) (r : Round) (rs : List Round) (out outs : List Submitted)
      → Turns s r.event out t
      → Streams t rs outs u
      → Streams s (r ∷ rs) (out ++ outs) u

ended-run : (rs : List Round) → (run ended rs).0 ≡ ended
unfolding run step
ended-run [] = refl
ended-run (r ∷ rs) = ended-run rs

after-Streams :
    (s : State) (r : Round) (rs : List Round) (q : Stream) (x : Running × List Submitted)
    → Goes s r.event x
    → ((p : Stream)
        → (run (streaming p) rs).0 ≡ streaming q
        → Streams p.state rs (run (streaming p) rs).1 q.state)
    → (run x.0 rs).0 ≡ streaming q
    → Streams s (r ∷ rs) (x.1 ++ (run x.0 rs).1) q.state
after-Streams s r rs q (streaming p, out) g ih h =
    goes s p.state q.state r rs out (run (streaming p) rs).1 g (ih p h)
after-Streams s r rs q (ended, out) g ih h = cc (ended-run rs, h)

abbrev state_or : State → Running → State
state_or s (streaming x) = x.state
state_or s ended = s

pub run-Streams :
    (p q : Stream) (rs : List Round)
    → (run (streaming p) rs).0 ≡ streaming q
    → Streams p.state rs (run (streaming p) rs).1 q.state
unfolding run step
run-Streams p q [] h =
    subst (λ s. Streams p.state [] [] s) (ap (state_or p.state) h) (stays p.state)
run-Streams p q (r ∷ rs) h =
    after-Streams p.state r rs q (on_event r p r.event) (event-Goes r p r.event)
      (λ p' h'. run-Streams p' q rs h') h
