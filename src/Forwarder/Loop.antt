-- ===== src/Forwarder/Loop.antt =====
-- server/voice/core/src/channel/mod.rs: `event` and the loop `run`, with the connection tasks that run
-- beside it. A step is one event that the loop takes, or one round of a connection task.
use voices.Common.{
  not, ◌||◌, ℕ, ◌+◌, Bool, true, false, Option, none, some, List, [], ◌∷◌, lookup, remove, ◌==◌,
  ◌&&◌, leb, if◌then◌else◌,
}
use voices.Net.{SocketAddr, ClientMessage}
use voices.Crypto.{Aead}
use voices.Connection
use voices.Connection.{
  VoiceConnection, Phase, waiting, peered, stopped, ConnectionState, is_waiting, is_peered,
  is_stopped, InternalMsg, ControlRequest, Round, Event, Output, init_response, status_response,
}
use voices.Forwarder.{
  VoiceControl, Conn, VoiceTask, Forwarder, Peer, Random, ChannelCtl, open_connection, establish,
  leave, peers, status, Reply, opened, established, left, present, state, peer_not_found, Handled,
  replied, failed, panicked,
}
use voices.Forwarder
use voices.Forwarder.Tasks.{is_running, update_task}
use voices.Forwarder.Control.{control_msg}
use voices.Forwarder.Socket.{socket_msg, Effect, todo_panic}

pub data Status : Type 0 where
  running : Status
  -- left the loop: `end_notify` was sent
  ended : Status
  crashed : Status

pub record Room : Type 0 where
  pub forwarder : Forwarder
  pub status : Status
  -- when the round of the loop began, which starts the idle timeout again
  pub loop_start : ℕ

pub data Act : Type 0 where
  packet : SocketAddr → ClientMessage → Act
  recv_failed : Act
  control : ChannelCtl → Act
  control_closed : Act
  task_done : VoiceTask → Act
  idle_timeout : Act
  task_round : ℕ → Round → Act

abbrev pub channel_idle_timeout : ℕ
channel_idle_timeout = 5000

abbrev pub is_empty {ℓ} : {A : Type ℓ} → List A → Bool
is_empty [] = true
is_empty (x ∷ xs) = false

-- The task leaves the list of tasks.
unfoldable pub take_task : VoiceTask → List VoiceTask → List VoiceTask
take_task t [] = []
take_task t (u ∷ us) = let rest = take_task t us in if u.handle == t.handle then us else u ∷ rest

-- `if let Entry::Occupied(o) = self.client_id_to_src_id.entry(client_id)`
unfoldable pub forget : VoiceTask → Forwarder → Option ℕ → Forwarder
forget t f none = f
forget t f (some src) =
    let f' = record f { connections = remove t.src_id f.connections } in
    if src == t.src_id
    then record f' { client_id_to_src_id = remove t.client_id f.client_id_to_src_id }
    else f'

-- The arm of `tasks.next()`.
unfoldable pub on_task_done : VoiceTask → Forwarder → Forwarder
unfolding take_task forget
on_task_done t f =
    forget t (record f { tasks = take_task t f.tasks }) (lookup t.client_id f.client_id_to_src_id)

unfoldable pub contains_task : VoiceTask → List VoiceTask → Bool
contains_task t [] = false
contains_task t (u ∷ us) =
    (u.handle == t.handle && u.src_id == t.src_id && u.client_id == t.client_id)
    || contains_task t us

unfoldable pub has_stopped : Option VoiceConnection → Bool
unfolding is_running
has_stopped none = false
has_stopped (some c) = not (is_running c.phase)

abbrev pub again : ℕ → Room → Forwarder → Room
again now m f = record m { forwarder = f; loop_start = now }

abbrev pub after_effect : ℕ → Room → Effect → Room
after_effect now m todo_panic = record m { status = crashed }
after_effect now m _ = again now m m.forwarder

-- A failed request is logged and the loop goes on.
abbrev pub after_control : ℕ → Room → Handled × Forwarder → Room
after_control now m (panicked, f) = record m { forwarder = f; status = crashed }
after_control now m (_, f) = again now m f

abbrev pub after_round : Room → ℕ → Option VoiceConnection → Aead → Round → Room
after_round m handle none aead r = m
after_round m handle (some c) aead r = record m {
  forwarder = update_task m.forwarder handle (Connection.step aead c r).0;
}

-- One step at time `now`. `task_done` waits for a task that has stopped, and the timeout runs only
-- while there are no tasks.
unfoldable pub act : Aead → ℕ → Room → Act → Room
unfolding control_msg socket_msg on_task_done contains_task has_stopped
act aead now m (packet addr msg) = after_effect now m (socket_msg m.forwarder addr msg)
act aead now m recv_failed = again now m m.forwarder
act aead now m (control c) = after_control now m (control_msg aead now c m.forwarder)
act aead now m control_closed = record m { status = ended }
act aead now m (task_done t) =
    if contains_task t m.forwarder.tasks && has_stopped (lookup t.handle m.forwarder.spawned)
    then again now m (on_task_done t m.forwarder)
    else m
act aead now m idle_timeout =
    if is_empty m.forwarder.tasks && leb (m.loop_start + channel_idle_timeout) now
    then record m { status = ended }
    else m
act aead now m (task_round handle r) =
    after_round m handle (lookup handle m.forwarder.spawned) aead r

-- A loop that was left takes no more events; the connection tasks go on.
unfoldable pub room_step : Aead → ℕ → Room → Act → Status → Room
unfolding act
room_step aead now m a running = act aead now m a
room_step aead now m (task_round handle r) _ = act aead now m (task_round handle r)
room_step aead now m _ _ = m

unfoldable pub step : Aead → Room → ℕ × Act → Room
unfolding room_step
step aead m (now, a) = room_step aead now m a m.status

unfoldable pub run : Aead → Room → List (ℕ × Act) → Room
run aead m [] = m
run aead m (a ∷ as') = run aead (step aead m a) as'

abbrev pub fresh : ℕ → Room
fresh now = record { forwarder = Forwarder.new; status = running; loop_start = now }
