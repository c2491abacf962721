-- ===== src/Forwarder/Admission.antt =====
-- server/voice/core/src/channel/mod.rs: which datagrams reach a connection task.
use voices.Common.{
  ℕ, true, Option, none, some, lookup, ◌≡◌, ◌↔◌, arith, inl, inr, Option-cases, Bool-cases, refl,
}
use voices.Net.{SocketAddr, same_addr}
use voices.Net.SameAddr.{canonical, same_addr_iff}
use voices.Connection.{InternalMsg, VoiceConnection}
use voices.Forwarder.{Conn, Forwarder}
use voices.Forwarder.Tasks.{task}
use voices.Forwarder.Socket.{to_task, forward, conn_forward, send_task}

-- A connection that is bound to an address takes a datagram from it for its task, which runs.
pub record Admits (f : Forwarder) (from : SocketAddr) (source_id handle : ℕ) : Type 0 where
  pub conn : Conn
  pub addr : SocketAddr
  pub t : VoiceConnection
  pub registered : lookup source_id f.connections ≡ some conn
  pub bound : conn.addr ≡ some addr
  pub port : addr.port ≡ from.port
  pub ip : canonical addr.ip ≡ canonical from.ip
  pub handle_of : conn.ctl.tx ≡ handle
  pub runs : task f handle ≡ some t

module _ (f : Forwarder) (from : SocketAddr) (source_id handle : ℕ) (msg : InternalMsg) where
  Admits-task :
      (conn : Conn) (addr : SocketAddr)
      → lookup source_id f.connections ≡ some conn
      → conn.addr ≡ some addr
      → same_addr addr from ≡ true
      → send_task f conn msg ≡ to_task handle msg
      → Admits f from source_id handle
  unfolding send_task
  Admits-task conn addr r b s h = elim (Option-cases (task f conn.ctl.tx)) [
    | inl e ↦ absurd (ground arith)
    | inr (t, e) ↦
        let same = (same_addr_iff addr from).0 s in
        record {
          conn = conn;
          addr = addr;
          t = t;
          registered = r;
          bound = b;
          port = same.0;
          ip = same.1;
          handle_of = ground arith;
          runs = ground arith;
        }
  ]

  Admits-addr :
      (conn : Conn) (o : Option SocketAddr)
      → lookup source_id f.connections ≡ some conn
      → conn.addr ≡ o
      → conn_forward f conn from msg o ≡ to_task handle msg
      → Admits f from source_id handle
  unfolding conn_forward
  Admits-addr conn none r b h = absurd (ground arith)
  Admits-addr conn (some addr) r b h = elim (Bool-cases (same_addr addr from)) [
    | inl e ↦ Admits-task conn addr r b e (ground arith)
    | inr e ↦ absurd (ground arith)
  ]

  Admits-conn :
      (o : Option Conn)
      → lookup source_id f.connections ≡ o
      → forward f from source_id msg ≡ to_task handle msg
      → Admits f from source_id handle
  unfolding forward
  Admits-conn none e h = absurd (ground arith)
  Admits-conn (some conn) e h = Admits-addr conn conn.addr e refl (ground arith)

  forward_of : Admits f from source_id handle → forward f from source_id msg ≡ to_task handle msg
  unfolding forward send_task conn_forward
  forward_of a = ground (
    arith,
    a.registered,
    a.bound,
    a.handle_of,
    a.runs,
    (same_addr_iff a.addr from).1 (a.port, a.ip),
  )

  -- A voice packet or ping is handed to a connection task exactly when the source id that it names is
  -- registered, its connection is bound to the address that the datagram came from (the same port, and
  -- the same address in IPv6 form), and its task has not stopped.
  pub forward_iff :
      (forward f from source_id msg ≡ to_task handle msg) ↔ Admits f from source_id handle
  forward_iff = (Admits-conn (lookup source_id f.connections) refl, forward_of)
