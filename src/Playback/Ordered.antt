-- ===== src/Playback/Ordered.antt =====
-- client/src/play.rs: packets that arrive in order are played in order.
use voices.Common.{
  ℕ, suc, ◌^◌, ◌<◌, ◌≤◌, ◌≡◌, ◌≢◌, Option, some, List, [], ◌∷◌, ◌++◌, length, All, arith, refl, ap,
  sym, subst, ◌∙◌,
}
use mathlib.Core.List.{append_assoc, append-nil}
use voices.Playback.Handed.{
  handed-++, handed-single, Turns, ticks, pops, Streams, stays, goes, run-Streams,
}
use voices.Playback.Ticks.{takes, misses, Ticks, turns, plays, waits}
use voices.Playback.{
  new, Voice, State, push, succ_u64, Stream, streaming, Event, msg, Round, Submitted, run,
  option_list, submitted, handed, arrival, arrived,
}
use voices.Playback.InOrder.{InOrder, push-InOrder, takes-InOrder, plays-InOrder}

-- The least number that may come after an event, and what it asks of a packet that comes.
abbrev pub after : ℕ → Event → ℕ
after m (msg (some v)) = suc v.sequence
after m _ = m

abbrev pub Timely : ℕ → Event → Type 0
Timely m (msg (some v)) = (m ≤ v.sequence) × (suc v.sequence < 2 ^ 64)
Timely m _ = Unit

abbrev pub IsInOrder : ℕ → List Round → Type 0
IsInOrder m [] = Unit
IsInOrder m (r ∷ rs) = Timely m r.event × IsInOrder (after m r.event) rs

-- No frame was concealed.
abbrev pub IsGapless : List Submitted → Type 0
IsGapless out = All (λ r. submitted r ≢ []) out

tick-InOrder :
    (m : ℕ) (v : Voice) (s u : State) (o : Option Voice)
    → Ticks v s o u
    → InOrder m s
    → m ≤ v.sequence
    → suc v.sequence < 2 ^ 64
    → InOrder (suc v.sequence) u × (option_list o ++ u.queue ≡ s.queue ++ v ∷ [])
tick-InOrder m v s u o (turns _ t _ full (takes w _ _ e n f) k) i le lt =
    let (j, h) : InOrder (suc v.sequence) (push v t) × ((push v t).queue ≡ t.queue ++ v ∷ []) =
      push-InOrder m v t (takes-InOrder m w s t e n i) le lt in
    (subst (InOrder (suc v.sequence)) (sym k) j, rw (f, k, h, e) refl)
tick-InOrder m v s u o (turns _ t _ full (misses _ _ e e' n f) k) i le lt =
    absurd (omega (arith, full, ap length e))
tick-InOrder m v s u o (plays _ _ few at k f) i le lt =
    let (j, e) : InOrder (suc v.sequence) (record s { next_expected = succ_u64 v.sequence })
        × (s.queue ≡ []) =
      plays-InOrder m v s i le lt at in
    (subst (InOrder (suc v.sequence)) (sym k) j, rw (f, k, e) refl)
tick-InOrder m v s u o (waits _ _ few ne k f) i le lt =
    let (j, h) : InOrder (suc v.sequence) (push v s) × ((push v s).queue ≡ s.queue ++ v ∷ []) =
      push-InOrder m v s i le lt in
    (subst (InOrder (suc v.sequence)) (sym k) j, rw (f, k, h) refl)

turn-InOrder :
    (m : ℕ) (s u : State) (e : Event) (out : List Submitted)
    → Turns s e out u
    → InOrder m s
    → Timely m e
    → IsGapless out
    → InOrder (after m e) u × (handed out ++ u.queue ≡ s.queue ++ arrival e)
turn-InOrder m s u e out (ticks v o _ _ t h) i (le, lt) g =
    let (j, k) : InOrder (suc v.sequence) u × (option_list o ++ u.queue ≡ s.queue ++ v ∷ []) =
      tick-InOrder m v s u o t i le lt in
    (j, ap (λ x. x ++ u.queue) h ∙ k)
turn-InOrder m s u e out (pops o _ _ r (takes w _ _ q n f) h k) i _ g = (
  takes-InOrder m w s u q n i,
  ap (λ x. x ++ u.queue) (ap handed h ∙ handed-single r ∙ k ∙ ap option_list f)
      ∙ sym q
      ∙ sym (append-nil s.queue),
)
turn-InOrder m s u e out (pops o _ _ r (misses _ _ q q' n f) h k) i _ g =
    absurd ((subst IsGapless h g).0 (k ∙ ap option_list f))

IsGapless-++ : (o os : List Submitted) → IsGapless (o ++ os) → IsGapless o × IsGapless os
IsGapless-++ [] os g = (tt, g)
IsGapless-++ (r ∷ o) os (n, g) = let (a, b) = IsGapless-++ o os g in ((n, a), b)

Streams-InOrder :
    (m : ℕ) (s u : State) (rs : List Round) (out : List Submitted)
    → Streams s rs out u
    → InOrder m s
    → IsInOrder m rs
    → IsGapless out
    → handed out ++ u.queue ≡ s.queue ++ arrived rs
unfolding handed arrived
Streams-InOrder m s u rs out (stays _) i t g = sym (append-nil s.queue)
Streams-InOrder m s u rs out (goes _ t _ r rs' o os turn f) i (now, later) g =
    let (go, gs) : IsGapless o × IsGapless os = IsGapless-++ o os g in
    let (j, k) : InOrder (after m r.event) t × (handed o ++ t.queue ≡ s.queue ++ arrival r.event) =
      turn-InOrder m s t r.event o turn i now go in
    ap (λ x. x ++ u.queue) (handed-++ o os)
    ∙ append_assoc (handed o) (handed os) u.queue
    ∙ ap (λ x. handed o ++ x) (Streams-InOrder (after m r.event) t u rs' os f j later gs)
    ∙ sym (append_assoc (handed o) t.queue (arrived rs'))
    ∙ ap (λ x. x ++ arrived rs') k
    ∙ append_assoc s.queue (arrival r.event) (arrived rs')

-- If the packets of a speaker come in strictly ascending order, below the end of the counter, and no
-- frame has to be concealed, then the stream hands them to the decoder in the order in which they
-- came: while it goes on, what it handed over and then what is in the buffer are what arrived.
pub run-ordered :
    (p q : Stream) (rs : List Round)
    → p.state ≡ new
    → (run (streaming p) rs).0 ≡ streaming q
    → IsInOrder 0 rs
    → IsGapless (run (streaming p) rs).1
    → handed (run (streaming p) rs).1 ++ q.state.queue ≡ arrived rs
run-ordered p q rs e h t g =
    Streams-InOrder 0 p.state q.state rs (run (streaming p) rs).1 (run-Streams p q rs h)
      (subst (InOrder 0) (sym e) (record {
        strict = tt;
        above = tt;
        below = tt;
        expected = omega arith;
        small = omega arith;
      }))
      t g
    ∙ ap (λ s. s.queue ++ arrived rs) e
