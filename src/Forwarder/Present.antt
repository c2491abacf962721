-- ===== src/Forwarder/Present.antt =====
-- server/voice/core/src/channel/mod.rs: the two maps of the forwarder agree, so that its
-- `expect("always present")` and the index `self.connections[&sid]` do not fail.
use voices.Connection
use voices.Forwarder.Tasks.{now_round}
use voices.Connection.{ControlRequest}
use voices.Common.{
  Map, ℕ, true, none, some, List, [], ◌∷◌, String, lookup, insert, ◌≡◌, ◌≢◌, arith, lookup-insert,
  lookup-remove, inl, inr, Option-cases,
}
use voices.Net.{SocketAddr}
use voices.Crypto.{Aead}
use voices.Connection.{VoiceConnection, Round}
use voices.Forwarder.{
  VoiceControl, Conn, VoiceTask, Forwarder, Random, ChannelCtl, open_connection, establish, leave,
  peers, status, Handled, replied, failed, panicked,
}
use voices.Forwarder
use voices.Forwarder.Tasks.{task, ctl_init, ctl_stop}
use voices.Forwarder.Control.{on_open}
use voices.Forwarder.Loop.{take_task, forget, on_task_done, contains_task}

-- Each client that has a source id has a connection under it, under its own key, and a running or
-- finished task under that source id is the client's own.
pub record Inv (f : Forwarder) : Type 0 where
  pub present : (c s : ℕ) → lookup c f.client_id_to_src_id ≡ some s → lookup s f.connections ≢ none
  pub keyed : (s : ℕ) (conn : Conn) → lookup s f.connections ≡ some conn → conn.ctl.source_id ≡ s
  pub sole :
      (t : VoiceTask) (c : ℕ)
      → contains_task t f.tasks ≡ true
      → lookup c f.client_id_to_src_id ≡ some t.src_id
      → c ≡ t.client_id

-- A source id that no client and no task has.
pub record IsFresh (f : Forwarder) (src : ℕ) : Type 0 where
  pub unmapped : (c : ℕ) → lookup c f.client_id_to_src_id ≢ some src
  pub untasked : (t : VoiceTask) → contains_task t f.tasks ≡ true → t.src_id ≢ src

pub new-Inv : Inv Forwarder.new
unfolding Forwarder.new contains_task lookup
new-Inv = record {
  present = λ c s h. ground arith;
  keyed = λ s conn h. ground arith;
  sole = λ t c h k. ground arith;
}

pub contains-take_task :
    (t u : VoiceTask) (us : List VoiceTask)
    → contains_task u (take_task t us) ≡ true
    → contains_task u us ≡ true
unfolding contains_task take_task
contains-take_task t u [] h = ground arith
contains-take_task t u (x ∷ us) h = ground (arith, contains-take_task t u us)

module _ (f : Forwarder) (v : Inv f) where
  abbrev new_conn : String → Random → Conn
  new_conn name rand = record {
    ctl = record { source_id = rand.source_id; user_name = name; tx = f.next_handle };
    addr = none;
  }

  pub on_open-Inv :
      (now client_id : ℕ) (name : String) (rand : Random)
      → IsFresh f rand.source_id
      → Inv (on_open now client_id name rand f).1
  unfolding on_open contains_task
  on_open-Inv now client_id name rand n = record {
    present = λ c s h. ground (
      arith,
      v.present c s,
      lookup-insert client_id c rand.source_id f.client_id_to_src_id,
      lookup-insert rand.source_id s (new_conn name rand) f.connections,
    );
    keyed = λ s conn h.
        ground (
          arith,
          v.keyed s conn,
          lookup-insert rand.source_id s (new_conn name rand) f.connections,
        );
    sole = λ t c h k. ground (
      arith,
      v.sole t c,
      n.unmapped c,
      n.untasked t,
      lookup-insert client_id c rand.source_id f.client_id_to_src_id,
    );
  }

  pub task_done-Inv : (t : VoiceTask) → contains_task t f.tasks ≡ true → Inv (on_task_done t f)
  unfolding on_task_done
  task_done-Inv t h = elim (Option-cases (lookup t.client_id f.client_id_to_src_id)) [
    | inl e ↦
        rw (e, forget)
          (record {
            present = v.present;
            keyed = v.keyed;
            sole = λ u c k l. v.sole u c (contains-take_task t u f.tasks k) l;
          })
    | inr (src, e) ↦
        rw (e, forget)
          (record {
            present = λ c s k. ground (
              arith,
              v.present c s,
              v.sole t c h,
              lookup-remove t.client_id c f.client_id_to_src_id,
              lookup-remove t.src_id s f.connections,
            );
            keyed =
                λ s conn k. ground (arith, v.keyed s conn, lookup-remove t.src_id s f.connections);
            sole = λ u c k l. ground (
              arith,
              v.sole u c (contains-take_task t u f.tasks (ground arith)),
              lookup-remove t.client_id c f.client_id_to_src_id,
            );
          })
  ]

  -- What replaces a connection by one with the same source id keeps the invariant, and so does what
  -- changes the connection tasks.
  pub rebind-Inv :
      (s : ℕ) (conn : Conn) (spawned : Map VoiceConnection)
      → conn.ctl.source_id ≡ s
      → Inv (record f { connections = insert s conn f.connections; spawned = spawned })
  rebind-Inv s conn spawned e = record {
    present = λ c i k. ground (arith, v.present c i, lookup-insert s i conn f.connections);
    keyed = λ i d k. ground (arith, v.keyed i d, lookup-insert s i conn f.connections);
    sole = v.sole;
  }

  pub spawned-Inv : (spawned : Map VoiceConnection) → Inv (record f { spawned = spawned })
  spawned-Inv spawned = record { present = v.present; keyed = v.keyed; sole = v.sole }

pub ctl_init-spawned :
    (aead : Aead) (now : ℕ) (a : SocketAddr) (f : Forwarder) (c : VoiceControl)
    → (spawned : Map VoiceConnection) × ((ctl_init aead now a f c).1
        ≡ record f { spawned = spawned })
unfolding ctl_init
ctl_init-spawned aead now a f c = elim (Option-cases (task f c.tx)) [
  | inl e ↦ (f.spawned, rw (e, ctl_init))
  | inr (t, e) ↦ (
    insert c.tx (Connection.step aead t (now_round now (ControlRequest.init a))).0 f.spawned,
    rw (e, ctl_init),
  )
]

pub ctl_stop-spawned :
    (aead : Aead) (now : ℕ) (f : Forwarder) (c : VoiceControl)
    → (spawned : Map VoiceConnection) × (ctl_stop aead now f c ≡ record f { spawned = spawned })
unfolding ctl_stop
ctl_stop-spawned aead now f c = elim (Option-cases (task f c.tx)) [
  | inl e ↦ (f.spawned, rw (e, ctl_stop))
  | inr (t, e) ↦ (
    insert c.tx (Connection.step aead t (now_round now ControlRequest.stop)).0 f.spawned,
    rw (e, ctl_stop),
  )
]
