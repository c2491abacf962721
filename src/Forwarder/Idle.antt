-- ===== src/Forwarder/Idle.antt =====
-- server/voice/core/src/channel/mod.rs: when the forwarder leaves its loop.
use voices.Forwarder.{Handled, panicked, Forwarder}
use voices.Connection.{VoiceConnection, Round}
use voices.Common.{
  none, some, refl, ◌≢◌, ◌&&◌, Option, ℕ, ◌+◌, ◌≤◌, ◌≡◌, ◌⊎◌, inl, inr, [], arith, Bool-cases,
  lookup,
}
use voices.Crypto.{Aead}
use voices.Forwarder.Socket.{Effect, socket_msg, todo_panic}
use voices.Forwarder.Control.{control_msg}
use voices.Forwarder.Loop.{
  Room, running, ended, Act, packet, recv_failed, control, control_closed, task_done, idle_timeout,
  task_round, channel_idle_timeout, act, room_step, step, contains_task, has_stopped, after_effect,
  after_control, after_round,
}

abbrev pub EndsOf : ℕ → Room → Act → Type 0
EndsOf now m a =
    (a ≡ control_closed)
    ⊎ ((a ≡ idle_timeout) × (m.forwarder.tasks ≡ []) × (m.loop_start + channel_idle_timeout ≤ now))

after_effect-ne-ended :
    (now : ℕ) (m : Room) (e : Effect) → m.status ≡ running → (after_effect now m e).status ≢ ended
after_effect-ne-ended now m todo_panic r = ground arith
after_effect-ne-ended now m _ r = ground arith

after_control-ne-ended :
    (now : ℕ) (m : Room) (h : Handled × Forwarder)
    → m.status ≡ running
    → (after_control now m h).status ≢ ended
after_control-ne-ended now m (panicked, f) r = ground arith
after_control-ne-ended now m (_, f) r = ground arith

after_round-status :
    (m : Room) (handle : ℕ) (o : Option VoiceConnection) (aead : Aead) (s : Round)
    → (after_round m handle o aead s).status ≡ m.status
after_round-status m handle none aead s = refl
after_round-status m handle (some c) aead s = refl

act_ends :
    (aead : Aead) (now : ℕ) (m : Room) (a : Act)
    → m.status ≡ running
    → (act aead now m a).status ≡ ended
    → EndsOf now m a
unfolding act
act_ends aead now m (packet addr msg) r e =
    absurd (after_effect-ne-ended now m (socket_msg m.forwarder addr msg) r e)
act_ends aead now m recv_failed r e = ground arith
act_ends aead now m (control c) r e =
    absurd (after_control-ne-ended now m (control_msg aead now c m.forwarder) r e)
act_ends aead now m control_closed r e = ground arith
act_ends aead now m (task_done t) r e =
    elim (Bool-cases
      (contains_task t m.forwarder.tasks && has_stopped (lookup t.handle m.forwarder.spawned))) [
        | inl y ↦ absurd (ground arith)
        | inr n ↦ absurd (ground arith)
      ]
act_ends aead now m idle_timeout r e = ground arith
act_ends aead now m (task_round handle s) r e =
    absurd (ground (arith, after_round-status m handle (lookup handle m.forwarder.spawned) aead s))

-- The loop of a running channel ends in a step only if the server has dropped the channel's handle,
-- or the idle timeout fires with no connection task left, at least 5 seconds after the last event.
pub ends_idle :
    (aead : Aead) (now : ℕ) (m : Room) (a : Act)
    → m.status ≡ running
    → (step aead m (now, a)).status ≡ ended
    → EndsOf now m a
unfolding step
ends_idle aead now m a r e = act_ends aead now m a r (rw (r, room_step) at e)
