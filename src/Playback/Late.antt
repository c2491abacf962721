-- ===== src/Playback/Late.antt =====
-- client/src/play.rs: packets that come after a gap.
use voices.Common.{ℕ, ◌<◌, ◌≡◌, true, some, [], ◌∷◌, arith}
use voices.Playback.{
  Voice, insert_voice, push, pop, tick, streaming, Event, msg, due, Round, decode_and_submit,
  on_event, step, run, handed,
}

abbrev pub heard : Event → Round
heard e = record {
  event = e;
  answers = record { converted = true; decoded = true; clipped = true };
}

-- A late packet is kept, and one that comes after it with the expected number is played first: when
-- the buffer is empty and the stream expects `v`, an older packet that comes just before `v` is played
-- just after it, so that the two are played in descending order.
pub overtakes :
    (deadline : ℕ) (old v : Voice)
    → old.sequence < v.sequence
    → handed
        (run
          (streaming (record {
            state = record { queue = []; next_expected = v.sequence };
            deadline = deadline;
          }))
          (heard (msg (some old)) ∷ heard (msg (some v)) ∷ heard due ∷ [])).1
      ≡ v ∷ old ∷ []
unfolding handed run step on_event tick push pop decode_and_submit insert_voice
overtakes deadline old v lt = ground arith
