-- ===== src/Forwarder/Panics.antt =====
-- server/voice/core/src/channel/mod.rs: over any history, the forwarder panics on no request.
use voices.Connection.{VoiceConnection, Round}
use voices.Common.{
  if◌then◌else◌, ◌&&◌, ◌+◌, leb, ℕ, Bool, true, false, Option, none, some, List, [], ◌∷◌, lookup,
  insert, ◌≡◌, ◌≢◌, arith, inl, inr, Option-cases, Bool-cases, subst, sym, refl,
}
use voices.Net.{SocketAddr, ClientMessage, Payload}
use voices.Crypto.{Aead}
use voices.Forwarder.{
  VoiceTask, Conn, Forwarder, ChannelCtl, open_connection, establish, leave, peers, status, Handled,
  replied, failed, panicked,
}
use voices.Forwarder.Control.{
  establish_reply, on_establish, establish_with, on_leave, on_status, control_msg,
}
use voices.Forwarder.Socket.{on_payload, Effect, todo_panic, socket_msg}
use voices.Forwarder.Loop.{
  channel_idle_timeout, again, after_round, is_empty, has_stopped, after_effect, after_control,
  Room, Status, running, ended, crashed, Act, packet, recv_failed, control, control_closed,
  task_done, idle_timeout, task_round, act, room_step, step, run, fresh, contains_task,
  on_task_done,
}
use voices.Forwarder.Present.{
  Inv, IsFresh, new-Inv, on_open-Inv, task_done-Inv, rebind-Inv, spawned-Inv, ctl_init-spawned,
  ctl_stop-spawned,
}

-- A request may be made: a new connection draws a source id that is not in use.
abbrev pub Allowed : Forwarder → ChannelCtl → Type 0
Allowed f (open_connection client_id name rand) = IsFresh f rand.source_id
Allowed f (establish client_id addr) = Unit
Allowed f (leave client_id) = Unit
Allowed f peers = Unit
Allowed f (status client_id) = Unit

abbrev Good : Handled × Forwarder → Type 0
Good r = (r.0 ≢ panicked) × Inv r.1

establish_reply-Good : (x : Option (List ℕ × ℕ) × Forwarder) → Inv x.1 → Good (establish_reply x)
establish_reply-Good (none, f) v = (ground arith, v)
establish_reply-Good (some (key, src), f) v = (ground arith, v)

module _ (aead : Aead) (now : ℕ) (f : Forwarder) (v : Inv f) where
  establish_with-Good :
      (a : SocketAddr) (src : ℕ) (conn : Conn)
      → conn.ctl.source_id ≡ src
      → Good (establish_with aead now a src f (some conn))
  unfolding establish_with
  establish_with-Good a src conn e = establish_reply-Good _ (
      let bound : Forwarder = record f {
        connections = insert src (record conn { addr = some a }) f.connections;
      } in
      let (spawned, same) = ctl_init-spawned aead now a bound conn.ctl in
      subst Inv (sym same) (rebind-Inv f v src (record conn { addr = some a }) spawned e))

  on_establish-Good :
      (a : SocketAddr) (c : ℕ) (o : Option ℕ)
      → lookup c f.client_id_to_src_id ≡ o
      → Good (on_establish aead now a f o)
  unfolding on_establish
  on_establish-Good a c none e = (ground arith, v)
  on_establish-Good a c (some src) e = elim (Option-cases (lookup src f.connections)) [
    | inl missing ↦ absurd (v.present c src e missing)
    | inr (conn, found) ↦
        subst (λ o. Good (establish_with aead now a src f o)) (sym found)
          (establish_with-Good a src conn (v.keyed src conn found))
  ]

  on_leave-Inv : (o : Option ℕ) → Inv (on_leave aead now f o)
  unfolding on_leave
  on_leave-Inv none = v
  on_leave-Inv (some sid) = elim (Option-cases (lookup sid f.connections)) [
    | inl missing ↦ rw (missing, on_leave) v
    | inr (conn, found) ↦
        let (spawned, same) = ctl_stop-spawned aead now f conn.ctl in
        rw (found, on_leave) (subst Inv (sym same) (spawned-Inv f v spawned))
  ]

  on_status-ne-panicked :
      (c : ℕ) (o : Option ℕ)
      → lookup c f.client_id_to_src_id ≡ o
      → on_status aead now f o ≢ panicked
  unfolding on_status
  on_status-ne-panicked c none e = ground arith
  on_status-ne-panicked c (some sid) e = ground (arith, v.present c sid e)

  control_msg-Good : (c : ChannelCtl) → Allowed f c → Good (control_msg aead now c f)
  unfolding control_msg
  control_msg-Good (open_connection client_id name rand) ok =
      (ground arith, on_open-Inv f v now client_id name rand ok)
  control_msg-Good (establish client_id addr) ok =
      on_establish-Good addr client_id (lookup client_id f.client_id_to_src_id) refl
  control_msg-Good (leave client_id) ok =
      (ground arith, on_leave-Inv (lookup client_id f.client_id_to_src_id))
  control_msg-Good peers ok = (ground arith, v)
  control_msg-Good (status client_id) ok =
      (on_status-ne-panicked client_id (lookup client_id f.client_id_to_src_id) refl, v)

-- The step may be taken: a datagram has a payload, and a request is allowed.
abbrev pub Proper : Forwarder → Act → Type 0
Proper f (packet addr msg) = msg.payload ≢ none
Proper f recv_failed = Unit
Proper f (control c) = Allowed f c
Proper f control_closed = Unit
Proper f (task_done t) = Unit
Proper f idle_timeout = Unit
Proper f (task_round handle r) = Unit

record IsSound (m : Room) : Type 0 where
  alive : m.status ≢ crashed
  inv : Inv m.forwarder

after_control-IsSound :
    (now : ℕ) (m : Room) (r : Handled × Forwarder)
    → m.status ≢ crashed
    → Good r
    → IsSound (after_control now m r)
after_control-IsSound now m (panicked, f) a g = absurd (g.0 refl)
after_control-IsSound now m (replied x, f) a g = record { alive = a; inv = g.1 }
after_control-IsSound now m (failed, f) a g = record { alive = a; inv = g.1 }

on_payload-ne-todo :
    (f : Forwarder) (addr : SocketAddr) (p : Payload) → on_payload f addr (some p) ≢ todo_panic
unfolding on_payload
on_payload-ne-todo f addr (Payload.ping g) = ground arith
on_payload-ne-todo f addr (Payload.voice g) = ground arith
on_payload-ne-todo f addr (Payload.ip_disco g) = ground arith

socket_msg-ne-todo :
    (f : Forwarder) (addr : SocketAddr) (msg : ClientMessage)
    → msg.payload ≢ none
    → socket_msg f addr msg ≢ todo_panic
unfolding socket_msg
socket_msg-ne-todo f addr msg h = elim (Option-cases msg.payload) [
  | inl e ↦ absurd (h e)
  | inr (p, e) ↦ subst (λ o. on_payload f addr o ≢ todo_panic) (sym e) (on_payload-ne-todo f addr p)
]

after_effect-IsSound :
    (now : ℕ) (m : Room) (e : Effect) → IsSound m → e ≢ todo_panic → IsSound (after_effect now m e)
after_effect-IsSound now m todo_panic s h = absurd (h refl)
after_effect-IsSound now m _ s h = record { alive = s.alive; inv = s.inv }

if-IsSound : (b : Bool) (x y : Room) → IsSound x → IsSound y → IsSound (if b then x else y)
if-IsSound true x y s t = s
if-IsSound false x y s t = t

task_done-IsSound :
    (now : ℕ) (m : Room) (t : VoiceTask) (b : Bool)
    → IsSound m
    → IsSound (
        if contains_task t m.forwarder.tasks && b
        then again now m (on_task_done t m.forwarder)
        else m)
task_done-IsSound now m t b s = elim (Bool-cases (contains_task t m.forwarder.tasks)) [
  | inl e ↦ rw e (
      if-IsSound b (again now m (on_task_done t m.forwarder)) m
        (record { alive = s.alive; inv = task_done-Inv m.forwarder s.inv t e }) s)
  | inr e ↦ rw e s
]

after_round-IsSound :
    (aead : Aead) (m : Room) (handle : ℕ) (o : Option VoiceConnection) (r : Round)
    → IsSound m
    → IsSound (after_round m handle o aead r)
after_round-IsSound aead m handle none r s = s
after_round-IsSound aead m handle (some c) r s = record {
  alive = s.alive;
  inv =
      spawned-Inv m.forwarder s.inv
        (insert handle (voices.Connection.step aead c r).0 m.forwarder.spawned);
}

act-IsSound :
    (aead : Aead) (now : ℕ) (m : Room) (a : Act)
    → IsSound m
    → Proper m.forwarder a
    → IsSound (act aead now m a)
unfolding act
act-IsSound aead now m (packet addr msg) s p =
    after_effect-IsSound now m (socket_msg m.forwarder addr msg) s
      (socket_msg-ne-todo m.forwarder addr msg p)
act-IsSound aead now m recv_failed s p = record { alive = s.alive; inv = s.inv }
act-IsSound aead now m (control c) s p =
    after_control-IsSound now m (control_msg aead now c m.forwarder) s.alive
      (control_msg-Good aead now m.forwarder s.inv c p)
act-IsSound aead now m control_closed s p = record { alive = ground arith; inv = s.inv }
act-IsSound aead now m (task_done t) s p =
    task_done-IsSound now m t (has_stopped (lookup t.handle m.forwarder.spawned)) s
act-IsSound aead now m idle_timeout s p =
    if-IsSound (is_empty m.forwarder.tasks && leb (m.loop_start + channel_idle_timeout) now)
      (record m { status = ended }) m (record { alive = ground arith; inv = s.inv }) s
act-IsSound aead now m (task_round handle r) s p =
    after_round-IsSound aead m handle (lookup handle m.forwarder.spawned) r s

step-IsSound :
    (aead : Aead) (now : ℕ) (m : Room) (a : Act)
    → IsSound m
    → Proper m.forwarder a
    → IsSound (step aead m (now, a))
unfolding step room_step
step-IsSound aead now m a s p = room_step-IsSound m.status a p
  where
    room_step-IsSound :
        (st : Status) (a : Act) → Proper m.forwarder a → IsSound (room_step aead now m a st)
    room_step-IsSound running a p = act-IsSound aead now m a s p
    room_step-IsSound ended (task_round handle r) p =
        act-IsSound aead now m (task_round handle r) s p
    room_step-IsSound ended _ p = s
    room_step-IsSound crashed (task_round handle r) p =
        act-IsSound aead now m (task_round handle r) s p
    room_step-IsSound crashed _ p = s

-- Every step of a history may be taken where it is taken.
unfoldable pub AllProper : Aead → Room → List (ℕ × Act) → Type 0
AllProper aead m [] = Unit
AllProper aead m (a ∷ as') = Proper m.forwarder a.1 × AllProper aead (step aead m a) as'

run-IsSound :
    (aead : Aead) (m : Room) (as' : List (ℕ × Act))
    → IsSound m
    → AllProper aead m as'
    → IsSound (run aead m as')
unfolding run AllProper
run-IsSound aead m [] s p = s
run-IsSound aead m ((now, a) ∷ as') s p =
    run-IsSound aead (step aead m (now, a)) as' (step-IsSound aead now m a s p.0) p.1

fresh-IsSound : (now : ℕ) → IsSound (fresh now)
fresh-IsSound now = record { alive = λ e. cc; inv = new-Inv }

-- From a new channel on, whatever packets, requests, finished tasks and rounds of the connection
-- tasks follow, the forwarder has not panicked, provided that every datagram has a payload and every
-- new connection draws a source id that no client and no task of the channel has; and each client
-- that has a source id has a connection under it.
pub run-ne-crashed :
    (aead : Aead) (start : ℕ) (as' : List (ℕ × Act))
    → AllProper aead (fresh start) as'
    → ((run aead (fresh start) as').status ≢ crashed) × Inv (run aead (fresh start) as').forwarder
run-ne-crashed aead start as' p =
    let s = run-IsSound aead (fresh start) as' (fresh-IsSound start) p in (s.alive, s.inv)

-- A datagram with no payload, from any address, ends the forwarder of a running channel.
pub empty_datagram_crashes :
    (aead : Aead) (now : ℕ) (m : Room) (addr : SocketAddr)
    → m.status ≡ running
    → (step aead m (now, packet addr (record { payload = none }))).status ≡ crashed
unfolding step socket_msg
empty_datagram_crashes aead now m addr h = rw (h, room_step) refl
