-- ===== src/Playback/Ticks.antt =====
-- client/src/play.rs: the branches of `tick` and `pop`.
use voices.Common.{
  ◌<◌, ◌≤◌, ◌≡◌, ◌≢◌, Option, none, some, List, [], ◌∷◌, length, arith, refl, leb, ◌==◌, Bool-cases,
  inl, inr,
}
use voices.Playback.{Voice, State, push, pop, pop_from, tick, succ_u64}

-- What `pop` does: it takes the first packet, or counts the missing one.
pub data Pops (s : State) : Option Voice → State → Type 0 where
  takes :
      (v : Voice) (o : Option Voice) (t : State)
      → s.queue ≡ v ∷ t.queue
      → t.next_expected ≡ succ_u64 v.sequence
      → o ≡ some v
      → Pops s o t
  misses :
      (o : Option Voice) (t : State)
      → s.queue ≡ []
      → t.queue ≡ []
      → t.next_expected ≡ succ_u64 s.next_expected
      → o ≡ none
      → Pops s o t

-- What `tick` does with a packet: it is pushed onto a full buffer that gives one away, played at once,
-- or pushed.
pub data Ticks (v : Voice) (s : State) : Option Voice → State → Type 0 where
  turns :
      (o : Option Voice) (t u : State)
      → 3 ≤ length s.queue
      → Pops s o t
      → u ≡ push v t
      → Ticks v s o u
  plays :
      (o : Option Voice) (u : State)
      → length s.queue < 3
      → v.sequence ≡ s.next_expected
      → u ≡ record s { next_expected = succ_u64 v.sequence }
      → o ≡ some v
      → Ticks v s o u
  waits :
      (o : Option Voice) (u : State)
      → length s.queue < 3
      → v.sequence ≢ s.next_expected
      → u ≡ push v s
      → o ≡ none
      → Ticks v s o u

pop_from-Pops :
    (s : State) (q : List Voice) → s.queue ≡ q → Pops s (pop_from s q).0 (pop_from s q).1
pop_from-Pops s [] e = misses none (pop_from s []).1 e e refl refl
pop_from-Pops s (v ∷ q) e = takes v (some v) (pop_from s (v ∷ q)).1 e refl refl

pub pop-Pops : (s : State) → Pops s (pop s).0 (pop s).1
unfolding pop
pop-Pops s = pop_from-Pops s s.queue refl

pub tick-Ticks : (v : Voice) (s : State) → Ticks v s (tick v s).0 (tick v s).1
unfolding tick
tick-Ticks v s = elim (Bool-cases (leb 3 (length s.queue))) [
  | inl b ↦
      rw (b) (turns (pop s).0 (pop s).1 (push v (pop s).1) (ground (arith, b)) (pop-Pops s) refl)
  | inr b ↦ elim (Bool-cases (v.sequence == s.next_expected)) [
    | inl c ↦
        rw (b, c)
          (plays (some v) (record s { next_expected = succ_u64 v.sequence }) (ground (arith, b))
            (ground (arith, c)) refl refl)
    | inr c ↦ rw (b, c) (waits none (push v s) (ground (arith, b)) (ground (arith, c)) refl refl)
  ]
]
