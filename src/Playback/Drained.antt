-- ===== src/Playback/Drained.antt =====
-- client/src/play.rs: the buffer when no more packets come.
use voices.Common.{
  ◌-◌, ◌≤◌, ◌≡◌, Option, List, [], ◌∷◌, ◌++◌, length, All, arith, refl, ap, sym, subst, ◌∙◌,
}
use mathlib.Core.List.{append_assoc, append-nil}
use voices.Playback.Handed.{
  handed-++, handed-single, Turns, ticks, pops, Streams, stays, goes, run-Streams,
}
use voices.Playback.Ticks.{Pops, takes, misses}
use voices.Playback.{
  new, Voice, State, Stream, streaming, Event, due, Round, Submitted, run, option_list, handed,
}
use voices.Playback.Bounds.{IsBuffer, IsSound, run-IsSound}

-- No packet comes, only deadlines.
abbrev pub IsDue : List Round → Type 0
IsDue rs = All (λ r. r.event ≡ due) rs

pop-drains :
    (s u : State) (o : Option Voice)
    → Pops s o u
    → (option_list o ++ u.queue ≡ s.queue) × (length u.queue ≡ length s.queue - 1)
pop-drains s u o (takes v _ _ e n f) =
    (ap (λ x. option_list x ++ u.queue) f ∙ sym e, omega (arith, ap length e))
pop-drains s u o (misses _ _ e e' n f) =
    (rw (f, e, e') refl, omega (arith, ap length e, ap length e'))

turn-drains :
    (s u : State) (e : Event) (out : List Submitted)
    → Turns s e out u
    → e ≡ due
    → (handed out ++ u.queue ≡ s.queue) × (length u.queue ≡ length s.queue - 1)
turn-drains s u e out (ticks v o _ _ t h) d = absurd cc
turn-drains s u e out (pops o _ _ r p h k) d =
    let (q, n) : (option_list o ++ u.queue ≡ s.queue) × (length u.queue ≡ length s.queue - 1) =
      pop-drains s u o p in
    (ap (λ x. x ++ u.queue) (ap handed h ∙ handed-single r ∙ k) ∙ q, n)

Streams-drain :
    (s u : State) (rs : List Round) (out : List Submitted)
    → Streams s rs out u
    → IsDue rs
    → (handed out ++ u.queue ≡ s.queue) × (length u.queue ≡ length s.queue - length rs)
unfolding handed
Streams-drain s u rs out (stays _) d = (refl, omega arith)
Streams-drain s u rs out (goes _ t _ r rs' o os g f) (d, ds) =
    let (k, n) : (handed o ++ t.queue ≡ s.queue) × (length t.queue ≡ length s.queue - 1) =
      turn-drains s t r.event o g d in
    let (k', n') : (handed os ++ u.queue ≡ t.queue)
        × (length u.queue ≡ length t.queue - length rs') =
      Streams-drain t u rs' os f ds in
    (
      ap (λ x. x ++ u.queue) (handed-++ o os)
          ∙ append_assoc (handed o) (handed os) u.queue
          ∙ ap (λ x. handed o ++ x) k'
          ∙ k,
      omega (arith, n, n'),
    )

new-IsBuffer : IsBuffer new
new-IsBuffer = record { ascending = tt; short = omega arith }

empty_of : (q : List Voice) → length q ≡ 0 → q ≡ []
empty_of [] h = refl
empty_of (v ∷ q) h = absurd (omega (arith, h))

-- After any rounds from a new stream, when the stream goes on and no more packets come, three deadlines
-- or more that it survives empty its buffer, and every packet that was in it is handed to the decoder,
-- in the order of the buffer.
pub run-drains :
    (start p q : Stream) (before rs : List Round)
    → start.state ≡ new
    → (run (streaming start) before).0 ≡ streaming p
    → IsDue rs
    → 3 ≤ length rs
    → (run (streaming p) rs).0 ≡ streaming q
    → (q.state.queue ≡ []) × (handed (run (streaming p) rs).1 ≡ p.state.queue)
run-drains start p q before rs fresh at d le h =
    let b : IsSound (streaming p) =
      subst IsSound at
        (run-IsSound (streaming start) before (subst IsBuffer (sym fresh) new-IsBuffer)) in
    let out : List Submitted = (run (streaming p) rs).1 in
    let (k, n) : (handed out ++ q.state.queue ≡ p.state.queue)
        × (length q.state.queue ≡ length p.state.queue - length rs) =
      Streams-drain p.state q.state rs out (run-Streams p q rs h) d in
    let e : q.state.queue ≡ [] = empty_of q.state.queue (omega (arith, n, le, b.short)) in
    (e, sym (append-nil (handed out)) ∙ ap (λ x. handed out ++ x) (sym e) ∙ k)
