-- ===== src/Playback/Examples.antt =====
-- Tests of client/src/play.rs.
use voices.Common.{ℕ, ◌≡◌, some, List, [], ◌∷◌, ◌++◌, arith, refl, ap, sym, subst}
use mathlib.Mathlib.Data.Multiset.AddSub.{add}
use voices.Playback.{
  new, Voice, insert_voice, push, pop, tick, Stream, streaming, msg, due, Round, played,
  decode_and_submit, on_event, step, run, handed, arrived,
}
use voices.Playback.Bounds.{IsSound}
use voices.Playback.Conserved.{bag, run-conserves}
use voices.Playback.Ordered.{IsInOrder, IsGapless, run-ordered}
use voices.Playback.Drained.{run-drains}
use voices.Playback.Late.{heard}

abbrev packet : ℕ → Voice
packet n = record { sequence = n; payload = n ∷ [] }

abbrev start : Stream
start = record { state = new; deadline = 0 }

-- One packet is played at once, two wait, and the first of them is played.
abbrev rounds : List Round
rounds =
    heard (msg (some (packet 0)))
    ∷ heard (msg (some (packet 2)))
    ∷ heard (msg (some (packet 3)))
    ∷ heard due
    ∷ []

abbrev at_end : Stream
at_end = record { state = record { queue = packet 3 ∷ []; next_expected = 3 }; deadline = 40 }

run-rounds :
    run (streaming start) rounds
    ≡ (streaming at_end, played (some (packet 0)) ∷ played (some (packet 2)) ∷ [])
unfolding run step on_event tick push pop decode_and_submit insert_voice
run-rounds = refl

start-IsSound : IsSound (streaming start)
start-IsSound = record { ascending = tt; short = omega arith }

run-conserves_example :
    add (bag (handed (run (streaming start) rounds).1)) (bag at_end.state.queue)
    ≡ add (bag (arrived rounds)) (bag start.state.queue)
run-conserves_example = run-conserves start at_end rounds (ap (λ x. x.0) run-rounds)

rounds-IsInOrder : IsInOrder 0 rounds
rounds-IsInOrder = (
  (omega arith, omega arith),
  ((omega arith, omega arith), ((omega arith, omega arith), (tt, tt))),
)

rounds-IsGapless : IsGapless (run (streaming start) rounds).1
rounds-IsGapless =
    subst IsGapless (sym (ap (λ x. x.1) run-rounds)) (λ e. absurd cc, (λ e. absurd cc, tt))

run-ordered_example : handed (run (streaming start) rounds).1 ++ at_end.state.queue ≡ arrived rounds
run-ordered_example =
    run-ordered start at_end rounds refl (ap (λ x. x.0) run-rounds) rounds-IsInOrder
      rounds-IsGapless

-- Two packets wait for the deadline of the one that is played first.
abbrev filling : List Round
filling =
    heard (msg (some (packet 0)))
    ∷ heard (msg (some (packet 2)))
    ∷ heard (msg (some (packet 3)))
    ∷ []

abbrev filled : Stream
filled = record {
  state = record { queue = packet 2 ∷ packet 3 ∷ []; next_expected = 1 };
  deadline = 20;
}

run-filling : (run (streaming start) filling).0 ≡ streaming filled
unfolding run step on_event tick push decode_and_submit insert_voice
run-filling = refl

abbrev quiet : List Round
quiet = heard due ∷ heard due ∷ heard due ∷ []

abbrev drained : Stream
drained = record { state = record { queue = []; next_expected = 5 }; deadline = 80 }

run-quiet : (run (streaming filled) quiet).0 ≡ streaming drained
unfolding run step on_event pop decode_and_submit
run-quiet = refl

run-drains_example :
    (drained.state.queue ≡ []) × (handed (run (streaming filled) quiet).1 ≡ filled.state.queue)
run-drains_example =
    run-drains start filled drained filling quiet refl run-filling (refl, (refl, (refl, tt)))
      (omega arith) run-quiet
