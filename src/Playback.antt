-- ===== src/Playback.antt =====
-- client/src/play.rs: the buffer that puts the packets of one speaker in order, and the loop that
-- plays them. The heap is kept as a list in ascending order; of packets with the same sequence number
-- the one that came first stands first. What the decoder and the clipper say of a packet is an input.
pub mod Ticks
pub mod Bounds
pub mod Conserved
pub mod InOrder
pub mod Ordered
pub mod Late
pub mod Drained
pub mod Player
pub mod Handed
mod Examples
use voices.Common.{
  ℕ, suc, ◌+◌, ◌%◌, ◌^◌, Bool, true, false, Option, none, some, List, [], ◌∷◌, ◌++◌, length, ltb,
  leb, ◌==◌, ◌&&◌, if◌then◌else◌,
}

pub record Voice : Type 0 where
  pub sequence : ℕ
  pub payload : List ℕ

pub record State : Type 0 where
  pub queue : List Voice
  pub next_expected : ℕ

-- `State::new`
abbrev pub new : State
new = record { queue = []; next_expected = 0 }

-- `+ 1` on a `u64`, as it wraps in a release build.
abbrev pub succ_u64 : ℕ → ℕ
succ_u64 n = suc n % 2 ^ 64

-- The heap fixes no order of packets with the same sequence number; here they stay in the order in which
-- they came.
unfoldable pub insert_voice : Voice → List Voice → List Voice
insert_voice v [] = v ∷ []
insert_voice v (w ∷ q) =
    let rest = insert_voice v q in if ltb v.sequence w.sequence then v ∷ w ∷ q else w ∷ rest

-- `push`; a stale packet is only logged.
unfoldable pub push : Voice → State → State
unfolding insert_voice
push v s = record s { queue = insert_voice v s.queue }

abbrev pub pop_from : State → List Voice → Option Voice × State
pop_from s [] = (none, record s { next_expected = succ_u64 s.next_expected })
pop_from s (v ∷ q) = (some v, record { queue = q; next_expected = succ_u64 v.sequence })

-- `pop`
unfoldable pub pop : State → Option Voice × State
pop s = pop_from s s.queue

abbrev pub then_push : Voice → Option Voice × State → Option Voice × State
then_push v (o, s) = (o, push v s)

-- `tick`
unfoldable pub tick : Voice → State → Option Voice × State
unfolding push pop
tick v s =
    if leb 3 (length s.queue)
    then then_push v (pop s)
    else if v.sequence == s.next_expected
    then (some v, record s { next_expected = succ_u64 v.sequence })
    else (none, push v s)

-- `decode_and_submit`: what the decoder does not take as a packet is a panic, which ends the task of
-- the stream as an error of the clipper does; a packet that cannot be decoded is left out. `none` asks
-- the decoder to conceal a lost packet.
pub data Submitted : Type 0 where
  played : Option Voice → Submitted
  undecoded : Option Voice → Submitted
  clip_failed : Option Voice → Submitted
  panicked : Option Voice → Submitted

-- What the decoder and the clipper answer.
pub record Answers : Type 0 where
  -- the payload converts to a packet
  pub converted : Bool
  pub decoded : Bool
  pub clipped : Bool

abbrev pub submit_input : Bool → Bool → Option Voice → Submitted
submit_input false clipped o = undecoded o
submit_input true true o = played o
submit_input true false o = clip_failed o

unfoldable pub decode_and_submit : Answers → Option Voice → Submitted
decode_and_submit a none = submit_input a.decoded a.clipped none
decode_and_submit a (some v) =
    if a.converted then submit_input a.decoded a.clipped (some v) else panicked (some v)

pub record Stream : Type 0 where
  pub state : State
  -- when the next frame is due, in milliseconds
  pub deadline : ℕ

pub data Running : Type 0 where
  streaming : Stream → Running
  ended : Running

-- What wakes the loop: a packet, the end of the channel, or the deadline.
pub data Event : Type 0 where
  msg : Option Voice → Event
  due : Event

pub record Round : Type 0 where
  pub event : Event
  pub answers : Answers

abbrev pub after_submit : Stream → State → Submitted → Running × List Submitted
after_submit p s (clip_failed o) = (ended, clip_failed o ∷ [])
after_submit p s (panicked o) = (ended, panicked o ∷ [])
after_submit p s r = (streaming (record { state = s; deadline = p.deadline + 20 }), r ∷ [])

abbrev pub after_tick : Round → Stream → Option Voice × State → Running × List Submitted
after_tick r p (none, s) = (streaming (record p { state = s }), [])
after_tick r p (some v, s) = after_submit p s (decode_and_submit r.answers (some v))

abbrev pub after_pop : Round → Stream → Option Voice × State → Running × List Submitted
after_pop r p (o, s) = after_submit p s (decode_and_submit r.answers o)

unfoldable pub on_event : Round → Stream → Event → Running × List Submitted
unfolding tick pop decode_and_submit
on_event r p (msg none) = (ended, [])
on_event r p (msg (some v)) = after_tick r p (tick v p.state)
on_event r p due = after_pop r p (pop p.state)

-- A round of `play_stream`.
unfoldable pub step : Running → Round → Running × List Submitted
unfolding on_event
step (streaming p) r = on_event r p r.event
step ended r = (ended, [])

unfoldable pub run : Running → List Round → Running × List Submitted
run p [] = (p, [])
run p (r ∷ rs) = let (p', out) = step p r in let (end, outs) = run p' rs in (end, out ++ outs)

abbrev pub option_list {ℓ} : {A : Type ℓ} → Option A → List A
option_list none = []
option_list (some a) = a ∷ []

abbrev pub submitted : Submitted → List Voice
submitted (played o) = option_list o
submitted (undecoded o) = option_list o
submitted (clip_failed o) = option_list o
submitted (panicked o) = option_list o

-- The packets that were handed to the decoder, and those that arrived.
unfoldable pub handed : List Submitted → List Voice
handed [] = []
handed (r ∷ rs) = submitted r ++ handed rs

abbrev pub arrival : Event → List Voice
arrival (msg o) = option_list o
arrival due = []

unfoldable pub arrived : List Round → List Voice
arrived [] = []
arrived (r ∷ rs) = arrival r.event ++ arrived rs
