-- ===== src/Heartbeat/Steady.antt =====
-- server/voice/grpc/src/server.rs: the interval of the heartbeat against the staleness of the channels
-- service.
use voices.Common.{ℕ, ◌+◌, ◌≤◌, ◌<◌, ◌≡◌, true, Option, some, List, [], ◌∷◌, String, arith}
use voices.Registry.{Tables, staleness}
use voices.Grpc.{Codec, Text}
use voices.Heartbeat.{
  answered, unanswered, unreached, took_place, heartbeat_interval, Event, beat, ended, other, run,
}
use voices.Heartbeat.Rows.{AreOld}
use voices.Heartbeat.Active.{active_at, IsOrdered, AreForeign, last_beat, active_iff}

-- The ticks are an interval apart, the next one at `due`; each registration takes place less than five
-- seconds after its tick, and at `end` none is later than that.
abbrev pub IsSteady : ℕ → List (ℕ × Event) → ℕ → Type 0
IsSteady due [] end = end < due + 5000
IsSteady due ((now, beat call) ∷ es) end =
    (due ≤ now)
    × (now < due + 5000)
    × (took_place call ≡ true)
    × IsSteady (due + heartbeat_interval) es end
IsSteady due ((now, ended cid call) ∷ es) end = IsSteady due es end
IsSteady due ((now, other op) ∷ es) end = IsSteady due es end

last_beat-IsSteady :
    (due last end : ℕ) (es : List (ℕ × Event))
    → due ≤ last + heartbeat_interval
    → IsSteady due es end
    → end < last_beat last es + staleness
unfolding last_beat
last_beat-IsSteady due last end [] h s = omega arith
last_beat-IsSteady due last end ((now, beat answered) ∷ es) h (a, b, c, s) =
    last_beat-IsSteady (due + heartbeat_interval) now end es (omega arith) s
last_beat-IsSteady due last end ((now, beat unanswered) ∷ es) h (a, b, c, s) =
    last_beat-IsSteady (due + heartbeat_interval) now end es (omega arith) s
last_beat-IsSteady due last end ((now, beat unreached) ∷ es) h (a, b, c, s) = absurd (cc c)
last_beat-IsSteady due last end ((now, ended cid call) ∷ es) h s =
    last_beat-IsSteady due last end es h s
last_beat-IsSteady due last end ((now, other op) ∷ es) h s = last_beat-IsSteady due last end es h s

-- A voice server whose first registration succeeds at `start` and whose heartbeats each take place less
-- than five seconds after their tick, the first tick at once and each later one thirty seconds after
-- the one before, is active at every later time: whatever else happens to the tables, as long as no
-- other voice server has its id, no row under its id is newer than `start`, its address is one that
-- the service can parse, and the clock of the channels service does not go back.
pub stays_active :
    (codec : Codec) (url_from_str : Text → Option String) (id : ℕ) (addr : Text) (url : String)
    (start end : ℕ) (es : List (ℕ × Event)) (t : Tables)
    → url_from_str addr ≡ some url
    → AreOld id start t.voice_servers
    → IsOrdered start es end
    → AreForeign id es
    → IsSteady start es end
    → active_at end id (run codec url_from_str id addr t ((start, beat answered) ∷ es)) ≡ true
stays_active codec url_from_str id addr url start end es t valid old ordered foreign steady =
    (active_iff codec url_from_str id addr url start end es t valid old ordered foreign).1
      (last_beat-IsSteady start start end es (omega arith) steady)
