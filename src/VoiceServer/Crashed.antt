-- ===== src/VoiceServer/Crashed.antt =====
-- server/voice/core/src/lib.rs: a channel whose forwarder has panicked. Its end is not announced, so
-- that the cleanup task does not remove it.
use voices.Ports.{Ports, PortRef}
use voices.Common.{
  ◌∙◌, String, ap, ℕ, ◌<◌, ◌≡◌, ◌≢◌, Bool, true, false, Option, none, some, List, [], ◌∷◌, lookup,
  insert, refl, lookup-insert, lookup-remove, arith,
}
use voices.Crypto.{Aead}
use native.Nat.{ℕᴺ_discrete}
use voices.Connection.{VoiceConnection, Round}
use voices.Forwarder.Loop.{
  after_round, packet, recv_failed, control, control_closed, task_done, idle_timeout, task_round,
  room_step,
}
use voices.Ports
use voices.Forwarder.{ChannelCtl, Random}
use voices.Forwarder.Control.{control_msg}
use voices.Forwarder.Loop.{
  task_round, task_done, control, packet, act, room_step, Room, Status, running, ended, crashed,
  Act, after_control, fresh,
}
use voices.Forwarder.Loop
use voices.VoiceServer.{
  VoiceServer, Channel, healthy, assign_channel, assign_entry, with_port, open_channel, get_channel,
  cleanup, if_healthy,
}
use voices.VoiceServer.Ops.{
  Op, assign, request, room_act, clean, op_step, op_run, acted, Unannounced,
}
use voices.VoiceServer.Requests.{
  err, OpenConnectionError, ask, ask_room, ask_open, open_connection_at,
}

-- The entry of `id` in the registry is `c`, whose forwarder has panicked.
pub record IsDead (id : ℕ) (c : Channel) (s : VoiceServer) : Type 0 where
  pub entry : lookup id s.channels ≡ some c
  pub room : Room
  pub found : lookup c.channel_ctl s.rooms ≡ some room
  pub dead : room.status ≡ crashed
  pub old : c.channel_ctl < s.next_ctl

crashed-after_round :
    (m : Room) (handle : ℕ) (c : Option VoiceConnection) (aead : Aead) (r : Round)
    → (after_round m handle c aead r).status ≡ m.status
crashed-after_round m handle none aead r = refl
crashed-after_round m handle (some c) aead r = refl

crashed-room_step :
    (aead : Aead) (m : Room) (now : ℕ) (a : Act)
    → (room_step aead now m a crashed).status ≡ m.status
unfolding room_step act
crashed-room_step aead m now (packet x y) = refl
crashed-room_step aead m now recv_failed = refl
crashed-room_step aead m now (control c) = refl
crashed-room_step aead m now control_closed = refl
crashed-room_step aead m now (task_done t) = refl
crashed-room_step aead m now idle_timeout = refl
crashed-room_step aead m now (task_round handle r) =
    crashed-after_round m handle (lookup handle m.forwarder.spawned) aead r

crashed-step :
    (aead : Aead) (m : Room) (now : ℕ) (a : Act)
    → m.status ≡ crashed
    → (Loop.step aead m (now, a)).status ≡ crashed
unfolding Loop.step
crashed-step aead m now a h =
    ap (λ st. (room_step aead now m a st).status) h ∙ crashed-room_step aead m now a ∙ h

module _ (aead : Aead) (id : ℕ) (c : Channel) where
  -- A dead channel stays dead where its entry and its room stay.
  IsDead-intro :
      (s s' : VoiceServer) (m : Room)
      → lookup id s'.channels ≡ some c
      → lookup c.channel_ctl s'.rooms ≡ some m
      → m.status ≡ crashed
      → c.channel_ctl < s'.next_ctl
      → IsDead id c s'
  IsDead-intro s s' m a b d e = record { entry = a; room = m; found = b; dead = d; old = e }

  clean-IsDead : (s : VoiceServer) → IsDead id c s → (j : ℕ) → j ≢ id → IsDead id c (cleanup j s)
  unfolding cleanup
  clean-IsDead s d j ne = record {
    entry = ground (arith, d.entry, lookup-remove j id s.channels);
    room = d.room;
    found = d.found;
    dead = d.dead;
    old = d.old;
  }

  open-IsDead :
      (s : VoiceServer)
      → IsDead id c s
      → (now : ℕ) (bound : Bool) (j : ℕ) (port : PortRef) → j ≢ id
      → IsDead id c (open_channel now bound j port s).1
  unfolding open_channel
  open-IsDead s d now true j port ne = record {
    entry = ground (
      arith,
      d.entry,
      lookup-insert j id (record { channel_ctl = s.next_ctl; port = port }) s.channels,
    );
    room = d.room;
    found =
        ground (arith, d.found, d.old, lookup-insert s.next_ctl c.channel_ctl (fresh now) s.rooms);
    dead = d.dead;
    old = ground (arith, d.old);
  }
  open-IsDead s d now false j port ne = record {
    entry = d.entry;
    room = d.room;
    found = d.found;
    dead = d.dead;
    old = d.old;
  }

  with_port-IsDead :
      (s : VoiceServer)
      → IsDead id c s
      → (now : ℕ) (bound : Bool) (j : ℕ) (p : Option PortRef × Ports) → j ≢ id
      → IsDead id c (with_port now bound j s p).1
  with_port-IsDead s d now bound j (none, ports) ne = record {
    entry = d.entry;
    room = d.room;
    found = d.found;
    dead = d.dead;
    old = d.old;
  }
  with_port-IsDead s d now bound j (some port, ports) ne =
      open-IsDead (record s { ports = ports })
        (record { entry = d.entry; room = d.room; found = d.found; dead = d.dead; old = d.old }) now
        bound j port ne

  vacant_ne : (s : VoiceServer) → IsDead id c s → (j : ℕ) → lookup j s.channels ≡ none → j ≢ id
  vacant_ne s d j h same = cc (same, h, d.entry)

  open_ne :
      (s : VoiceServer)
      → IsDead id c s
      → (handle : ℕ) (m : Room) → lookup handle s.rooms ≡ some m
      → m.status ≡ running
      → handle ≢ c.channel_ctl
  open_ne s d handle m h k same = cc (same, h, k, d.found, d.dead)

  other_room :
      (s : VoiceServer)
      → IsDead id c s
      → (handle : ℕ) (m : Room) → handle ≢ c.channel_ctl
      → IsDead id c (record s { rooms = insert handle m s.rooms })
  other_room s d handle m ne = record {
    entry = d.entry;
    room = d.room;
    found = ground (arith, d.found, lookup-insert handle c.channel_ctl m s.rooms);
    dead = d.dead;
    old = d.old;
  }

  same_room :
      (s : VoiceServer)
      → IsDead id c s
      → (handle : ℕ) (m : Room) → handle ≡ c.channel_ctl
      → m.status ≡ crashed
      → IsDead id c (record s { rooms = insert handle m s.rooms })
  same_room s d handle m same k = record {
    entry = d.entry;
    room = m;
    found = ground (arith, same, lookup-insert handle c.channel_ctl m s.rooms);
    dead = k;
    old = d.old;
  }

  assign_entry-IsDead :
      (s : VoiceServer)
      → IsDead id c s
      → (now : ℕ) (bound : Bool) (j : ℕ) (e : Option Channel) → lookup j s.channels ≡ e
      → IsDead id c (assign_entry now bound j s e).1
  unfolding assign_entry
  assign_entry-IsDead s d now bound j (some x) h = d
  assign_entry-IsDead s d now bound j none h =
      with_port-IsDead s d now bound j (Ports.get s.ports) (vacant_ne s d j h)

  ask_open-IsDead :
      (s : VoiceServer)
      → IsDead id c s
      → (now handle : ℕ) (r : ChannelCtl) (m : Room) (st : Status) → lookup handle s.rooms ≡ some m
      → m.status ≡ st
      → IsDead id c (ask_open aead now r handle m st s).1
  ask_open-IsDead s d now handle r m ended h k = d
  ask_open-IsDead s d now handle r m crashed h k = d
  ask_open-IsDead s d now handle r m running h k =
      other_room s d handle (after_control now m (control_msg aead now r m.forwarder))
        (open_ne s d handle m h k)

  ask_room-IsDead :
      (s : VoiceServer)
      → IsDead id c s
      → (now handle : ℕ) (r : ChannelCtl) (m : Option Room) → lookup handle s.rooms ≡ m
      → IsDead id c (ask_room aead now r handle m s).1
  ask_room-IsDead s d now handle r none h = d
  ask_room-IsDead s d now handle r (some m) h = ask_open-IsDead s d now handle r m m.status h refl

  acted-IsDead :
      (s : VoiceServer)
      → IsDead id c s
      → (now handle : ℕ) (a : Act) (m : Option Room) → lookup handle s.rooms ≡ m
      → IsDead id c (acted aead now handle a s m)
  acted-IsDead s d now handle a none h = d
  acted-IsDead s d now handle a (some m) h = elim (ℕᴺ_discrete handle c.channel_ctl) [
    | yes same ↦
        same_room s d handle (Loop.step aead m (now, a)) same
          (crashed-step aead m now a (cc (same, h, d.found, d.dead)))
    | no ne ↦ other_room s d handle (Loop.step aead m (now, a)) ne
  ]

  op_step-IsDead :
      (s : VoiceServer) (o : Op) (os : List Op)
      → IsDead id c s
      → Unannounced id (o ∷ os)
      → IsDead id c (op_step aead s o) × Unannounced id os
  unfolding op_step assign_channel ask
  op_step-IsDead s (assign now bound j) os d u =
      (assign_entry-IsDead s d now bound j (lookup j s.channels) refl, u)
  op_step-IsDead s (request now r ch) os d u =
      (ask_room-IsDead s d now ch.channel_ctl r (lookup ch.channel_ctl s.rooms) refl, u)
  op_step-IsDead s (room_act now handle a) os d u =
      (acted-IsDead s d now handle a (lookup handle s.rooms) refl, u)
  op_step-IsDead s (clean j) os d (ne, u) = (clean-IsDead s d j ne, u)

  op_run-IsDead :
      (s : VoiceServer) (os : List Op)
      → IsDead id c s
      → Unannounced id os
      → IsDead id c (op_run aead s os)
  unfolding op_run
  op_run-IsDead s [] d u = d
  op_run-IsDead s (o ∷ os) d u =
      let (d', u') = op_step-IsDead s o os d u in op_run-IsDead (op_step aead s o) os d' u'

  dead_healthy : (s : VoiceServer) → IsDead id c s → healthy s c ≡ false
  unfolding healthy
  dead_healthy s d = rw (d.found, d.dead) refl

  unhealthy : (s : VoiceServer) → IsDead id c s → get_channel id s ≡ none
  unfolding get_channel
  unhealthy s d = rw (d.entry, dead_healthy s d, if_healthy) refl

  refuses :
      (s : VoiceServer)
      → IsDead id c s
      → (now : ℕ) (bound : Bool) (rand : Random) (name : String) (client_id : ℕ)
      → (assign_channel now bound id s ≡ (some c, s))
        × (open_connection_at aead now rand
              (record { user_name = name; channel_id = id; client_id = client_id })
              s
            ≡ (err OpenConnectionError.channel_not_found, s))
  unfolding assign_channel assign_entry open_connection_at
  refuses s d now bound rand name client_id = (rw (d.entry) refl, rw (unhealthy s d) refl)

  -- When the forwarder of a registered channel has panicked, no sequence of assignments, requests,
  -- steps of forwarders and cleanups of other channels helps: an assignment of that channel
  -- afterwards succeeds with the dead entry and starts no forwarder, and every attempt to open a
  -- connection on it fails with `ChannelNotFound`; neither changes the server.
  pub dead_channel_stays :
      (s : VoiceServer) (os : List Op)
      → IsDead id c s
      → Unannounced id os
      → (now : ℕ) (bound : Bool) (rand : Random) (name : String) (client_id : ℕ)
      → (assign_channel now bound id (op_run aead s os) ≡ (some c, op_run aead s os))
        × (open_connection_at aead now rand
              (record { user_name = name; channel_id = id; client_id = client_id })
              (op_run aead s os)
            ≡ (err OpenConnectionError.channel_not_found, op_run aead s os))
  dead_channel_stays s os d u = refuses (op_run aead s os) (op_run-IsDead s os d u)
