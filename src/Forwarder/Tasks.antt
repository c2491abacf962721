-- ===== src/Forwarder/Tasks.antt =====
-- server/voice/core/src/channel/connection.rs: `VoiceControl`, the forwarder's requests to a
-- connection task.
use voices.Common.{
  ℕ, Bool, true, false, Option, none, some, List, ◌∷◌, lookup, insert, if◌then◌else◌,
}
use voices.Net.{SocketAddr}
use voices.Crypto.{Aead}
use voices.Connection
use voices.Connection.{
  VoiceConnection, Phase, waiting, peered, stopped, ConnectionState, is_waiting, is_peered,
  is_stopped, InternalMsg, ControlRequest, Round, Event, Output, init_response, status_response,
}
use voices.Forwarder.{VoiceControl, Forwarder}

abbrev pub now_round : ℕ → ControlRequest → Round
now_round now req = record { now = now; sent = true; event = Event.ctl (some req) }

unfoldable pub is_running : Phase → Bool
is_running (waiting d) = true
is_running (peered p) = true
is_running stopped = false

unfoldable pub running_task : Option VoiceConnection → Option VoiceConnection
unfolding is_running
running_task none = none
running_task (some c) = if is_running c.phase then some c else none

-- The task behind a handle, if it has not stopped.
unfoldable pub task : Forwarder → ℕ → Option VoiceConnection
unfolding running_task
task f handle = running_task (lookup handle f.spawned)

unfoldable pub status_answer : List Output → Option ConnectionState
status_answer (status_response s ∷ out) = some s
status_answer _ = none

-- `VoiceControl::status`: the answer of the task. It changes nothing in the task.
unfoldable pub ctl_status : Aead → ℕ → Forwarder → VoiceControl → Option ConnectionState
unfolding status_answer task
ctl_status aead now f c = elim (task f c.tx) [
  | none ↦ none
  | some t ↦ status_answer (Connection.step aead t (now_round now ControlRequest.status)).1
]

unfoldable pub init_answer : List Output → Option (List ℕ × ℕ)
init_answer (init_response key src ∷ out) = some (key, src)
init_answer _ = none

abbrev pub update_task : Forwarder → ℕ → VoiceConnection → Forwarder
update_task f handle t = record f { spawned = insert handle t f.spawned }

-- `VoiceControl::init`
unfoldable pub ctl_init :
    Aead → ℕ → SocketAddr → Forwarder → VoiceControl → Option (List ℕ × ℕ) × Forwarder
unfolding init_answer task
ctl_init aead now client_addr f c = elim (task f c.tx) [
  | none ↦ (none, f)
  | some t ↦
      let (t', out) = Connection.step aead t (now_round now (ControlRequest.init client_addr)) in
      (init_answer out, update_task f c.tx t')
]

-- `VoiceControl::stop`
unfoldable pub ctl_stop : Aead → ℕ → Forwarder → VoiceControl → Forwarder
unfolding task
ctl_stop aead now f c = elim (task f c.tx) [
  | none ↦ f
  | some t ↦ update_task f c.tx (Connection.step aead t (now_round now ControlRequest.stop)).0
]
