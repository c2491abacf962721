-- ===== src/Playback/Player.antt =====
-- client/src/play.rs: `play`, which starts the streams of the speakers and rings the bell for those that
-- come and go. Whether the last bell has ended is an input of each event.
use voices.Common.{ℕ, suc, ◌≡◌, refl, arith, Bool, true, false, List, [], ◌∷◌, ◌++◌}

pub data PlayerEvent : Type 0 where
  joined : Bool → PlayerEvent
  left : Bool → PlayerEvent
  set_volume : ℕ → PlayerEvent

pub data Heard : Type 0 where
  stream : Heard
  volume : ℕ → Heard
  bell : Heard

-- `playing`: whether a bell was ever started. The answer is the new value and what is heard.
abbrev pub ring : Bool → Bool → Bool → Bool × List Heard
ring true playing finished = (playing, [])
ring false false finished = (true, bell ∷ [])
ring false true true = (true, bell ∷ [])
ring false true false = (true, [])

abbrev pub after : Heard → Bool × List Heard → Bool × List Heard
after h (p, hs) = (p, h ∷ hs)

unfoldable pub on_player_event : Bool → Bool → PlayerEvent → Bool × List Heard
on_player_event playing finished (joined quiet) = after stream (ring quiet playing finished)
on_player_event playing finished (left quiet) = ring quiet playing finished
on_player_event playing finished (set_volume v) = after (volume v) (ring true playing finished)

-- The loop of `play`.
unfoldable pub play : Bool → List (PlayerEvent × Bool) → List Heard
unfolding on_player_event
play playing [] = []
play playing ((e, finished) ∷ es) =
    let (p, hs) = on_player_event playing finished e in hs ++ play p es

unfoldable streams : List Heard → ℕ
streams [] = 0
streams (stream ∷ hs) = suc (streams hs)
streams (volume v ∷ hs) = streams hs
streams (bell ∷ hs) = streams hs

unfoldable joins : List (PlayerEvent × Bool) → ℕ
joins [] = 0
joins ((joined q, f) ∷ es) = suc (joins es)
joins ((left q, f) ∷ es) = joins es
joins ((set_volume v, f) ∷ es) = joins es

-- A bell starts no stream.
streams-ring :
    (quiet playing finished : Bool) (hs : List Heard)
    → streams ((ring quiet playing finished).1 ++ hs) ≡ streams hs
unfolding streams
streams-ring true playing finished hs = refl
streams-ring false false finished hs = refl
streams-ring false true true hs = refl
streams-ring false true false hs = refl

-- Each speaker that joins gets one stream, whatever bells are rung.
streams-play :
    (playing : Bool) (es : List (PlayerEvent × Bool)) → streams (play playing es) ≡ joins es
unfolding play on_player_event streams joins
streams-play playing [] = refl
streams-play playing ((joined q, f) ∷ es) = omega (
  arith,
  streams-ring q playing f (play (ring q playing f).0 es),
  streams-play (ring q playing f).0 es,
)
streams-play playing ((left q, f) ∷ es) = omega (
  arith,
  streams-ring q playing f (play (ring q playing f).0 es),
  streams-play (ring q playing f).0 es,
)
streams-play playing ((set_volume v, f) ∷ es) = streams-play playing es
