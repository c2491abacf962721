-- ===== src/Playback/Bounds.antt =====
-- client/src/play.rs: the order and the length of the buffer.
use voices.Common.{
  ℕ, suc, ◌≤◌, ◌≡◌, Option, none, some, List, [], ◌∷◌, length, All, arith, refl, ltb, Bool-cases,
  inl, inr, ap, sym, subst,
}
use voices.Playback.Ticks.{Pops, takes, misses, Ticks, turns, plays, waits, pop-Pops, tick-Ticks}
use voices.Playback.{
  Voice, State, insert_voice, push, pop, tick, Stream, Running, streaming, ended, Event, msg, due,
  Round, Submitted, played, undecoded, clip_failed, panicked, decode_and_submit, after_submit,
  after_tick, on_event, step, run,
}

-- Nothing in the list comes before `n`.
abbrev pub From : ℕ → List Voice → Type 0
From n q = All (λ v. n ≤ v.sequence) q

-- Ascending, where equal numbers are allowed.
abbrev pub IsAscending : List Voice → Type 0
IsAscending [] = Unit
IsAscending (v ∷ q) = From v.sequence q × IsAscending q

-- The buffer is in order and holds at most three packets.
pub record IsBuffer (s : State) : Type 0 where
  pub ascending : IsAscending s.queue
  pub short : length s.queue ≤ 3

From-le : (m n : ℕ) (q : List Voice) → m ≤ n → From n q → From m q
From-le m n [] le f = tt
From-le m n (v ∷ q) le (a, f) = (omega (arith, le, a), From-le m n q le f)

pub insert_voice-From :
    (n : ℕ) (v : Voice) (q : List Voice) → n ≤ v.sequence → From n q → From n (insert_voice v q)
unfolding insert_voice
insert_voice-From n v [] le f = (le, tt)
insert_voice-From n v (w ∷ q) le (a, f) = elim (Bool-cases (ltb v.sequence w.sequence)) [
  | inl b ↦ rw (b) (le, (a, f))
  | inr b ↦ rw (b) (a, insert_voice-From n v q le f)
]

pub insert_voice-IsAscending :
    (v : Voice) (q : List Voice) → IsAscending q → IsAscending (insert_voice v q)
unfolding insert_voice
insert_voice-IsAscending v [] a = (tt, tt)
insert_voice-IsAscending v (w ∷ q) (f, a) = elim (Bool-cases (ltb v.sequence w.sequence)) [
  | inl b ↦
      let le : v.sequence ≤ w.sequence = ground (arith, b) in
      rw (b) ((le, From-le v.sequence w.sequence q le f), (f, a))
  | inr b ↦
      let le : w.sequence ≤ v.sequence = ground (arith, b) in
      rw (b) (insert_voice-From w.sequence v q le f, insert_voice-IsAscending v q a)
]

pub length-insert_voice : (v : Voice) (q : List Voice) → length (insert_voice v q) ≡ suc (length q)
unfolding insert_voice
length-insert_voice v [] = refl
length-insert_voice v (w ∷ q) = ground (arith, length-insert_voice v q)

push-IsBuffer :
    (v : Voice) (s : State) → IsAscending s.queue → length s.queue ≤ 2 → IsBuffer (push v s)
unfolding push
push-IsBuffer v s a le = record {
  ascending = insert_voice-IsAscending v s.queue a;
  short = omega (arith, le, length-insert_voice v s.queue);
}

pop-IsBuffer : (s t : State) (o : Option Voice) → Pops s o t → IsBuffer s → IsBuffer t
pop-IsBuffer s t o (takes v _ _ e n f) b = record {
  ascending = (subst IsAscending e b.ascending).1;
  short = omega (arith, ap length e, b.short);
}
pop-IsBuffer s t o (misses _ _ e e' n f) b = record {
  ascending = subst IsAscending (sym e') tt;
  short = omega (arith, ap length e');
}

full-pop :
    (s t : State) (o : Option Voice)
    → Pops s o t
    → IsBuffer s
    → 3 ≤ length s.queue
    → length t.queue ≤ 2
full-pop s t o (takes v _ _ e n f) b le = omega (arith, ap length e, b.short)
full-pop s t o (misses _ _ e e' n f) b le = omega (arith, ap length e')

tick-IsBuffer :
    (v : Voice) (s u : State) (o : Option Voice) → Ticks v s o u → IsBuffer s → IsBuffer u
tick-IsBuffer v s u o (turns _ t _ le p e) b =
    subst IsBuffer (sym e)
      (push-IsBuffer v t (pop-IsBuffer s t o p b).ascending (full-pop s t o p b le))
tick-IsBuffer v s u o (plays _ _ lt at e f) b =
    subst IsBuffer (sym e) (record { ascending = b.ascending; short = b.short })
tick-IsBuffer v s u o (waits _ _ lt ne e f) b =
    subst IsBuffer (sym e) (push-IsBuffer v s b.ascending (omega (arith, lt)))

-- A stream that goes on has a proper buffer.
abbrev pub IsSound : Running → Type 0
IsSound (streaming p) = IsBuffer p.state
IsSound ended = Unit

submit-IsSound :
    (p : Stream) (s : State) (r : Submitted) → IsBuffer s → IsSound (after_submit p s r).0
submit-IsSound p s (played o) b = b
submit-IsSound p s (undecoded o) b = b
submit-IsSound p s (clip_failed o) b = tt
submit-IsSound p s (panicked o) b = tt

after_tick-IsSound :
    (r : Round) (p : Stream) (o : Option Voice) (s : State)
    → IsBuffer s
    → IsSound (after_tick r p (o, s)).0
after_tick-IsSound r p none s b = b
after_tick-IsSound r p (some v) s b = submit-IsSound p s (decode_and_submit r.answers (some v)) b

event-IsSound : (r : Round) (p : Stream) (e : Event) → IsBuffer p.state → IsSound (on_event r p e).0
unfolding on_event
event-IsSound r p (msg none) b = tt
event-IsSound r p (msg (some v)) b =
    after_tick-IsSound r p (tick v p.state).0 (tick v p.state).1
      (tick-IsBuffer v p.state (tick v p.state).1 (tick v p.state).0 (tick-Ticks v p.state) b)
event-IsSound r p due b =
    submit-IsSound p (pop p.state).1 (decode_and_submit r.answers (pop p.state).0)
      (pop-IsBuffer p.state (pop p.state).1 (pop p.state).0 (pop-Pops p.state) b)

step-IsSound : (p : Running) (r : Round) → IsSound p → IsSound (step p r).0
unfolding step
step-IsSound (streaming p) r b = event-IsSound r p r.event b
step-IsSound ended r b = tt

-- However packets and deadlines come, the buffer of a stream stays in ascending order and never holds
-- more than three packets.
pub run-IsSound : (p : Running) (rs : List Round) → IsSound p → IsSound (run p rs).0
unfolding run
run-IsSound p [] b = b
run-IsSound p (r ∷ rs) b = run-IsSound (step p r).0 rs (step-IsSound p r b)
