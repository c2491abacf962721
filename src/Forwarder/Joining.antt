-- ===== src/Forwarder/Joining.antt =====
-- server/voice/core/src/channel/mod.rs: a client joins.
use voices.Common.{
  Map, ℕ, String, some, none, true, ◌≡◌, arith, lookup, insert, lookup-insert, refl, ap, ◌∙◌, ◌+◌,
}
use voices.Net.{SocketAddr}
use voices.Crypto.{Aead}
use voices.Connection.{
  peered, Peering, waiting, waiting_step, peered_step, phase_step, idle_timeout, VoiceConnection,
  ConnectionState, is_waiting, is_peered,
}
use voices.Connection
use voices.Forwarder.{
  VoiceControl, Conn, Forwarder, Random, Handled, open_connection, establish, status, replied,
  opened, established, state,
}
use voices.Forwarder.Tasks.{
  running_task, is_running, status_answer, init_answer, update_task, status_answer, init_answer,
  is_running, running_task, task, ctl_status, ctl_init,
}
use voices.Forwarder.Control.{control_msg, on_open, on_establish, establish_with, on_status}

inserted {ℓ} :
    {V : Type ℓ} (key : ℕ) (held : V) (entries : Map V)
    → lookup key (insert key held entries) ≡ some held
inserted key held entries = ground (arith, lookup-insert key key held entries)

is_running_task : (t : VoiceConnection) → is_running t.phase ≡ true → running_task (some t) ≡ some t
unfolding running_task
is_running_task t h = rw (h) refl

module _ (aead : Aead) (now : ℕ) (f : Forwarder) (c : VoiceControl) (t : VoiceConnection)
    (found : lookup c.tx f.spawned ≡ some t) where
  task-found : is_running t.phase ≡ true → task f c.tx ≡ some t
  unfolding task
  task-found h = ap running_task found ∙ is_running_task t h

  status_of_waiting : (d : ℕ) → t.phase ≡ waiting d → ctl_status aead now f c ≡ some is_waiting
  unfolding ctl_status Connection.step phase_step waiting_step status_answer is_running
  status_of_waiting d h =
      rw (task-found (ap is_running h), ctl_status) (rw (h, Connection.step) refl)

  status_of_peered : (p : Peering) → t.phase ≡ peered p → ctl_status aead now f c ≡ some is_peered
  unfolding ctl_status Connection.step phase_step peered_step status_answer is_running
  status_of_peered p h =
      rw (task-found (ap is_running h), ctl_status) (rw (h, Connection.step) refl)

  init_of_waiting :
      (d : ℕ) (addr : SocketAddr)
      → t.phase ≡ waiting d
      → ctl_init aead now addr f c ≡ (
        some (t.crypt_key, t.source_id),
        update_task f c.tx (record t {
          phase = peered (record {
            addr = addr;
            seq = 0;
            sent = 0;
            received = 0;
            ping_deadline = now + idle_timeout;
          });
        }),
      )
  unfolding ctl_init Connection.step phase_step waiting_step init_answer is_running
  init_of_waiting d addr h =
      rw (task-found (ap is_running h), ctl_init) (rw (h, Connection.step) refl)

  on_status-found :
      (client_id sid : ℕ) (conn : Conn) (st : ConnectionState)
      → lookup client_id f.client_id_to_src_id ≡ some sid
      → lookup sid f.connections ≡ some conn
      → ctl_status aead now f conn.ctl ≡ some st
      → (control_msg aead now (status client_id) f).0 ≡ replied (state st)
  unfolding control_msg on_status
  on_status-found client_id sid conn st ids conns h = rw (ids, on_status) (rw (conns) (rw (h) refl))

module _ (aead : Aead) (t0 t1 t2 client_id : ℕ) (name : String) (rand : Random) (addr : SocketAddr)
    (f : Forwarder) where
  abbrev after_open : Handled × Forwarder
  after_open = control_msg aead t0 (open_connection client_id name rand) f

  abbrev after_establish : Handled × Forwarder
  after_establish = control_msg aead t1 (establish client_id addr) after_open.1

  abbrev ctl : VoiceControl
  ctl = record { source_id = rand.source_id; user_name = name; tx = f.next_handle }

  abbrev started : VoiceConnection
  started = Connection.start t0 client_id rand.source_id rand.crypt_key

  opened_id : lookup client_id after_open.1.client_id_to_src_id ≡ some rand.source_id
  unfolding control_msg on_open
  opened_id = inserted client_id rand.source_id f.client_id_to_src_id

  opened_conn :
      lookup rand.source_id after_open.1.connections ≡ some (record { ctl = ctl; addr = none })
  unfolding control_msg on_open
  opened_conn = inserted rand.source_id (record { ctl = ctl; addr = none }) f.connections

  opened_task : lookup f.next_handle after_open.1.spawned ≡ some started
  unfolding control_msg on_open
  opened_task = inserted f.next_handle started f.spawned

  status_after_open :
      (control_msg aead t1 (status client_id) after_open.1).0 ≡ replied (state is_waiting)
  unfolding Connection.start
  status_after_open =
      on_status-found aead t1 after_open.1 ctl started opened_task client_id rand.source_id
        (record { ctl = ctl; addr = none }) is_waiting opened_id opened_conn
        (status_of_waiting aead t1 after_open.1 ctl started opened_task (t0 + idle_timeout) refl)

  abbrev bound : Forwarder
  bound = record after_open.1 {
    connections =
        insert rand.source_id (record { ctl = ctl; addr = some addr }) after_open.1.connections;
  }

  abbrev peering : Peering
  peering = record {
    addr = addr;
    seq = 0;
    sent = 0;
    received = 0;
    ping_deadline = t1 + idle_timeout;
  }

  abbrev joined : Forwarder
  joined = update_task bound f.next_handle (record started { phase = peered peering })

  establish_answer : after_establish ≡ (replied (established rand.crypt_key rand.source_id), joined)
  unfolding control_msg on_establish establish_with Connection.start
  establish_answer =
      rw (opened_id, on_establish)
        (rw (opened_conn, establish_with)
          (rw (init_of_waiting aead t1 bound ctl started opened_task (t0 + idle_timeout) addr refl)
            refl))

  joined_conn :
      lookup rand.source_id joined.connections ≡ some (record { ctl = ctl; addr = some addr })
  joined_conn =
      inserted rand.source_id (record { ctl = ctl; addr = some addr }) after_open.1.connections

  joined_task :
      lookup f.next_handle joined.spawned ≡ some (record started { phase = peered peering })
  joined_task = inserted f.next_handle (record started { phase = peered peering }) bound.spawned

  status_joined : (control_msg aead t2 (status client_id) joined).0 ≡ replied (state is_peered)
  status_joined =
      on_status-found aead t2 joined ctl (record started { phase = peered peering }) joined_task
        client_id rand.source_id (record { ctl = ctl; addr = some addr }) is_peered opened_id
        joined_conn
        (status_of_peered aead t2 joined ctl (record started { phase = peered peering }) joined_task
          peering refl)

  -- A client that opens a connection gets the source id that was drawn, and its status is then
  -- `Waiting`; when its session is established it gets the key and that source id, and its status is
  -- then `Peered`. This holds from every state of the forwarder.
  pub joining :
      (after_open.0 ≡ replied (opened rand.source_id))
      × ((control_msg aead t1 (status client_id) after_open.1).0 ≡ replied (state is_waiting))
      × (after_establish.0 ≡ replied (established rand.crypt_key rand.source_id))
      × ((control_msg aead t2 (status client_id) after_establish.1).0 ≡ replied (state is_peered))
  unfolding control_msg on_open
  joining = (
    refl,
    status_after_open,
    ap (λ h. h.0) establish_answer,
    ap (λ h. (control_msg aead t2 (status client_id) h.1).0) establish_answer ∙ status_joined,
  )
