-- ===== src/Forwarder/Socket.antt =====
-- server/voice/core/src/channel/mod.rs: `socket_msg`, what the forwarder does with a datagram.
use voices.Common.{ℕ, Option, none, some, lookup, if◌then◌else◌}
use voices.Net.{SocketAddr, same_addr, IpDiscoveryRequest, ClientMessage, Payload, ServerMessage}
use voices.Connection.{InternalMsg}
use voices.Forwarder.{Conn, Forwarder}
use voices.Forwarder.Tasks.{task}

pub data ForwardError : Type 0 where
  bad_addr : SocketAddr → SocketAddr → ForwardError
  session_not_established : ForwardError
  task_stopped : ForwardError
  unexpected_source : ℕ → ForwardError

-- `to_task` is a message in the queue of a connection task, and `reply_to` a datagram.
pub data Effect : Type 0 where
  to_task : ℕ → InternalMsg → Effect
  reply_to : ServerMessage → SocketAddr → Effect
  dropped : ForwardError → Effect
  unknown_src : ℕ → Effect
  todo_panic : Effect

unfoldable pub send_task : Forwarder → Conn → InternalMsg → Effect
send_task f conn msg = elim (task f conn.ctl.tx) [
  | none ↦ dropped task_stopped
  | some t ↦ to_task conn.ctl.tx msg
]

-- `Conn::forward`
unfoldable pub conn_forward :
    Forwarder → Conn → SocketAddr → InternalMsg → Option SocketAddr → Effect
unfolding send_task
conn_forward f conn from msg none = dropped session_not_established
conn_forward f conn from msg (some addr) =
    if same_addr addr from then send_task f conn msg else dropped (bad_addr addr from)

-- `Forwarder::forward`
unfoldable pub forward : Forwarder → SocketAddr → ℕ → InternalMsg → Effect
unfolding conn_forward
forward f addr source_id msg = elim (lookup source_id f.connections) [
  | none ↦ dropped (unexpected_source source_id)
  | some conn ↦ conn_forward f conn addr msg conn.addr
]

-- `ip_disco`
unfoldable pub ip_disco : Forwarder → SocketAddr → IpDiscoveryRequest → Effect
ip_disco f addr msg = elim (lookup msg.source_id f.connections) [
  | none ↦ unknown_src msg.source_id
  | some conn ↦ reply_to (ServerMessage.ip_disco (record { ip = addr.ip; port = addr.port })) addr
]

-- `socket_msg`; a message with no payload runs into `todo!()`.
unfoldable pub on_payload : Forwarder → SocketAddr → Option Payload → Effect
unfolding ip_disco forward
on_payload f addr none = todo_panic
on_payload f addr (some (Payload.ip_disco disco)) = ip_disco f addr disco
on_payload f addr (some (Payload.voice v)) = forward f addr v.source_id (InternalMsg.voice v)
on_payload f addr (some (Payload.ping p)) = forward f addr p.source_id (InternalMsg.ping p)

unfoldable pub socket_msg : Forwarder → SocketAddr → ClientMessage → Effect
unfolding on_payload
socket_msg f addr msg = on_payload f addr msg.payload
