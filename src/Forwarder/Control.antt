-- ===== src/Forwarder/Control.antt =====
-- server/voice/core/src/channel/mod.rs: `control_msg`.
use voices.Common.{
  ℕ, suc, Bool, true, false, Option, none, some, List, [], ◌∷◌, String, lookup, insert, keys,
  values, if◌then◌else◌,
}
use voices.Net.{SocketAddr}
use voices.Crypto.{Aead}
use voices.Connection
use voices.Connection.{
  VoiceConnection, Phase, waiting, peered, stopped, ConnectionState, is_waiting, is_peered,
  is_stopped, InternalMsg, ControlRequest, Round, Event, Output, init_response, status_response,
}
use voices.Forwarder.{
  VoiceControl, Conn, Forwarder, Peer, Random, ChannelCtl, open_connection, establish, leave, peers,
  status, opened, established, left, present, state, peer_not_found, Handled, replied, failed,
  panicked,
}
use voices.Forwarder.Tasks.{ctl_status, ctl_init, ctl_stop}

-- `control_msg`, `OpenConnection`
unfoldable pub on_open : ℕ → ℕ → String → Random → Forwarder → Handled × Forwarder
on_open now client_id user_name rand f =
    let task = Connection.start now client_id rand.source_id rand.crypt_key in
    let control : VoiceControl = record {
      source_id = rand.source_id;
      user_name = user_name;
      tx = f.next_handle;
    } in
    (
      replied (opened rand.source_id),
      record {
        connections = insert rand.source_id (record { ctl = control; addr = none }) f.connections;
        client_id_to_src_id = insert client_id rand.source_id f.client_id_to_src_id;
        tasks =
            record { src_id = rand.source_id; client_id = client_id; handle = f.next_handle }
            ∷ f.tasks;
        spawned = insert f.next_handle task f.spawned;
        next_handle = suc f.next_handle;
      },
    )

-- The answer of `init`, or `?`.
abbrev pub establish_reply : Option (List ℕ × ℕ) × Forwarder → Handled × Forwarder
establish_reply (none, f) = (failed, f)
establish_reply (some (key, src), f) = (replied (established key src), f)

-- `conn.bind(client_addr)` and `conn.ctl.init(client_addr)`; a missing connection is a panic.
unfoldable pub establish_with :
    Aead → ℕ → SocketAddr → ℕ → Forwarder → Option Conn → Handled × Forwarder
establish_with aead now client_addr src_id f none = (panicked, f)
establish_with aead now client_addr src_id f (some conn) =
    let f' = record f {
      connections = insert src_id (record conn { addr = some client_addr }) f.connections;
    } in
    establish_reply (ctl_init aead now client_addr f' conn.ctl)

-- `control_msg`, `Establish`
unfoldable pub on_establish : Aead → ℕ → SocketAddr → Forwarder → Option ℕ → Handled × Forwarder
unfolding establish_with
on_establish aead now client_addr f none = (replied peer_not_found, f)
on_establish aead now client_addr f (some src_id) =
    establish_with aead now client_addr src_id f (lookup src_id f.connections)

abbrev pub is_peered_answer : Option ConnectionState → Bool
is_peered_answer (some is_peered) = true
is_peered_answer _ = false

-- The loop of `Peers`: the keys of one map beside the values of the other, both in the order of
-- their own map.
unfoldable pub zip_peers : Aead → ℕ → Forwarder → List ℕ → List Conn → List Peer
zip_peers aead now f [] conns = []
zip_peers aead now f (id ∷ ids) [] = []
zip_peers aead now f (id ∷ ids) (conn ∷ conns) =
    let rest = zip_peers aead now f ids conns in
    if is_peered_answer (ctl_status aead now f conn.ctl)
    then record { id = id; source_id = conn.ctl.source_id; name = conn.ctl.user_name } ∷ rest
    else rest

-- `control_msg`, `Leave`
unfoldable pub on_leave : Aead → ℕ → Forwarder → Option ℕ → Forwarder
on_leave aead now f none = f
on_leave aead now f (some sid) = elim (lookup sid f.connections) [
  | none ↦ f
  | some conn ↦ ctl_stop aead now f conn.ctl
]

abbrev or_stopped : Option ConnectionState → ConnectionState
or_stopped none = is_stopped
or_stopped (some s) = s

-- `control_msg`, `Status`; indexing the map with a missing key is a panic.
unfoldable pub on_status : Aead → ℕ → Forwarder → Option ℕ → Handled
on_status aead now f none = replied peer_not_found
on_status aead now f (some sid) = elim (lookup sid f.connections) [
  | none ↦ panicked
  | some conn ↦ replied (state (or_stopped (ctl_status aead now f conn.ctl)))
]

-- `control_msg`
unfoldable pub control_msg : Aead → ℕ → ChannelCtl → Forwarder → Handled × Forwarder
unfolding on_open on_establish on_leave on_status zip_peers
control_msg aead now (open_connection client_id user_name rand) f =
    on_open now client_id user_name rand f
control_msg aead now (establish client_id client_addr) f =
    on_establish aead now client_addr f (lookup client_id f.client_id_to_src_id)
control_msg aead now peers f = (
  replied (present (zip_peers aead now f (keys f.client_id_to_src_id) (values f.connections))),
  f,
)
control_msg aead now (leave client_id) f =
    (replied left, on_leave aead now f (lookup client_id f.client_id_to_src_id))
control_msg aead now (status client_id) f =
    (on_status aead now f (lookup client_id f.client_id_to_src_id), f)
