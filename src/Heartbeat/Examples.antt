-- ===== src/Heartbeat/Examples.antt =====
-- A voice server with three heartbeats, of which the service does not answer one, and with a cleanup.
use voices.Common.{refl, ℕ, ◌+◌, ◌<◌, ◌≡◌, ◌↔◌, true, some, List, [], ◌∷◌, arith, String, Option}
use voices.Registry.{Tables, staleness}
use voices.Registry.Linked.{Op}
use voices.Grpc.{Text}
use voices.Grpc.Numbers.{numbers}
use voices.Heartbeat.{Event, beat, ended, other, answered, unanswered, run}
use voices.Heartbeat.Active.{active_at, last_beat, active_iff}
use voices.Heartbeat.Steady.{stays_active}

abbrev url_of : Text → Option String
url_of addr = some "http://a/"

abbrev events : List (ℕ × Event)
events =
    (1010, beat answered)
    ∷ (2000, ended 4 answered)
    ∷ (9000, other (Op.register 8 "http://b/"))
    ∷ (33000, beat unanswered)
    ∷ (40000, other Op.clean)
    ∷ (62000, beat answered)
    ∷ []

abbrev empty : Tables
empty = record { servers = []; channels = []; voice_servers = [] }

active_iff_example :
    (active_at 80000 7 (run numbers url_of 7 (1 ∷ []) empty ((1000, beat answered) ∷ events))
      ≡ true)
    ↔ (80000 < last_beat 1000 events + staleness)
active_iff_example =
    active_iff numbers url_of 7 (1 ∷ []) "http://a/" 1000 80000 events empty refl tt (omega arith)
      (tt, (tt, ((λ e. omega (arith, e)), (tt, (tt, (tt, tt))))))

stays_active_example :
    active_at 80000 7 (run numbers url_of 7 (1 ∷ []) empty ((1000, beat answered) ∷ events)) ≡ true
stays_active_example =
    stays_active numbers url_of 7 (1 ∷ []) "http://a/" 1000 80000 events empty refl tt (omega arith)
      (tt, (tt, ((λ e. omega (arith, e)), (tt, (tt, (tt, tt))))))
      (
        omega arith,
        omega arith,
        refl,
        (omega arith, omega arith, refl, (omega arith, omega arith, refl, omega arith)),
      )
