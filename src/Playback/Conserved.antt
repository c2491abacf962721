-- ===== src/Playback/Conserved.antt =====
-- client/src/play.rs: the buffer loses no packet and makes none up.
use voices.Common.{◌≡◌, Option, List, [], ◌∷◌, refl, ap, ◌∙◌, ltb, Bool-cases, inl, inr}
use mathlib.Mathlib.Data.Multiset.Defs.{Multiset, of_list}
use mathlib.Mathlib.Data.Multiset.ZeroCons.{cons, cons-swap}
use mathlib.Mathlib.Data.Multiset.AddSub.{add, add_comm, add_assoc, add-cons}
use voices.Playback.Handed.{
  handed-++, handed-single, Turns, ticks, pops, Streams, stays, goes, run-Streams,
}
use voices.Playback.Ticks.{Pops, takes, misses, Ticks, turns, plays, waits}
use voices.Playback.{
  Voice, State, insert_voice, push, Stream, streaming, Event, Round, Submitted, run, option_list,
  handed, arrival, arrived,
}

-- The packets in a list, in no order.
abbrev pub bag : List Voice → Multiset Voice
bag q = of_list q

insert_voice-bag : (v : Voice) (q : List Voice) → bag (insert_voice v q) ≡ cons v (bag q)
unfolding insert_voice
insert_voice-bag v [] = refl
insert_voice-bag v (w ∷ q) = elim (Bool-cases (ltb v.sequence w.sequence)) [
  | inl b ↦ rw (b) refl
  | inr b ↦ rw (b) (ap (cons w) (insert_voice-bag v q) ∙ cons-swap w v (bag q))
]

push-bag : (v : Voice) (s : State) → bag (push v s).queue ≡ cons v (bag s.queue)
unfolding push
push-bag v s = insert_voice-bag v s.queue

Pops-bag :
    (s t : State) (o : Option Voice)
    → Pops s o t
    → add (bag (option_list o)) (bag t.queue) ≡ bag s.queue
Pops-bag s t o (takes v _ _ e n f) = rw (f, e) refl
Pops-bag s t o (misses _ _ e e' n f) = rw (f, e, e') refl

Ticks-bag :
    (v : Voice) (s u : State) (o : Option Voice)
    → Ticks v s o u
    → add (bag (option_list o)) (bag u.queue) ≡ cons v (bag s.queue)
Ticks-bag v s u o (turns _ t _ le p e) =
    ap (λ w. add (bag (option_list o)) (bag w.queue)) e
    ∙ ap (add (bag (option_list o))) (push-bag v t)
    ∙ add-cons v (bag (option_list o)) (bag t.queue)
    ∙ ap (cons v) (Pops-bag s t o p)
Ticks-bag v s u o (plays _ _ lt at e f) = rw (f, e) refl
Ticks-bag v s u o (waits _ _ lt ne e f) = rw (f, e) (push-bag v s)

Turns-bag :
    (s u : State) (e : Event) (out : List Submitted)
    → Turns s e out u
    → add (bag (handed out)) (bag u.queue) ≡ add (bag (arrival e)) (bag s.queue)
Turns-bag s u e out (ticks v o _ _ t h) =
    ap (λ x. add (bag x) (bag u.queue)) h ∙ Ticks-bag v s u o t
Turns-bag s u e out (pops o _ _ r p h k) =
    ap (λ x. add (bag x) (bag u.queue)) (ap handed h ∙ handed-single r ∙ k) ∙ Pops-bag s u o p

-- The sums of two runs in a row.
sums :
    (x x' a a' s t u : Multiset Voice)
    → add x t ≡ add a s
    → add x' u ≡ add a' t
    → add (add x x') u ≡ add (add a a') s
sums x x' a a' s t u p q = cc (
  p,
  q,
  add_assoc x x' u,
  add_comm a' t,
  add_assoc x t a',
  add_assoc a s a',
  add_comm s a',
  add_assoc a a' s,
)

Streams-bag :
    (s u : State) (rs : List Round) (out : List Submitted)
    → Streams s rs out u
    → add (bag (handed out)) (bag u.queue) ≡ add (bag (arrived rs)) (bag s.queue)
unfolding handed arrived
Streams-bag s u rs out (stays _) = refl
Streams-bag s u rs out (goes _ t _ r rs' o os g f) =
    ap (λ x. add (bag x) (bag u.queue)) (handed-++ o os)
    ∙ sums (bag (handed o)) (bag (handed os)) (bag (arrival r.event)) (bag (arrived rs'))
        (bag s.queue) (bag t.queue) (bag u.queue) (Turns-bag s t r.event o g)
        (Streams-bag t u rs' os f)

-- While a stream goes on, every packet that arrived was handed to the decoder once or is still in the
-- buffer, and no other packet is: the packets that were handed over and those in the buffer are, as
-- multisets, the packets that arrived and those that were in the buffer before.
pub run-conserves :
    (p q : Stream) (rs : List Round)
    → (run (streaming p) rs).0 ≡ streaming q
    → add (bag (handed (run (streaming p) rs).1)) (bag q.state.queue)
      ≡ add (bag (arrived rs)) (bag p.state.queue)
run-conserves p q rs h =
    Streams-bag p.state q.state rs (run (streaming p) rs).1 (run-Streams p q rs h)
