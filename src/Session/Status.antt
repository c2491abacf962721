-- ===== src/Session/Status.antt =====
-- server/gateway/src/server/session.rs: `status_check`, the task that asks the voice host every five
-- seconds whether the connection of a session is still there. Its end is what `run_session` takes as the
-- loss of the voice connection.
use voices.Common.{◌≡◌, ◌↔◌, refl, Bool, true, false, List, [], ◌∷◌, All}
use voices.Connection.{ConnectionState, is_waiting, is_peered, is_stopped}
use voices.VoiceServer.Requests.{Result, ok, err}
use voices.Session.Join.{VoiceHostError}

abbrev pub Asked : Type 0
Asked = Result ConnectionState VoiceHostError

-- Whether the loop goes on after an answer.
abbrev pub continues : Asked → Bool
continues (ok is_peered) = true
continues (ok is_waiting) = true
continues (ok is_stopped) = false
continues (err e) = false

-- Whether the task has ended after these answers, one for each tick.
unfoldable pub status_check : List Asked → Bool
status_check [] = false
status_check (a ∷ later) =
    let rest = status_check later in elim (continues a) [ true ↦ rest | false ↦ true ]

-- The task goes on just as long as every answer says that the connection waits or is peered.
status_check_iff :
    (answers : List Asked) → (status_check answers ≡ false) ↔ All (λ a. continues a ≡ true) answers
unfolding status_check
status_check_iff [] = (λ e. tt, λ e. refl)
status_check_iff (ok is_peered ∷ later) =
    let (to, from) = status_check_iff later in (λ e. (refl, to e), λ e. from e.1)
status_check_iff (ok is_waiting ∷ later) =
    let (to, from) = status_check_iff later in (λ e. (refl, to e), λ e. from e.1)
status_check_iff (ok is_stopped ∷ later) = (λ e. absurd cc, λ e. absurd (cc e.0))
status_check_iff (err x ∷ later) = (λ e. absurd cc, λ e. absurd (cc e.0))
