-- ===== src/Client/Setup.antt =====
-- client/src/udp.rs: `UdpSetup`, which finds out the address under which the voice server sees the
-- client. Whether the socket does what it is asked is an input. The text of an address stands for
-- the address itself, so `from_str` is what the parser makes of the text of an address.
use voices.Common.{
  List, ℕ, ◌%◌, ◌^◌, ◌<◌, ◌≡◌, Bool, true, false, Option, none, some, arith, lookup,
}
use voices.Net.{IpAddr, SocketAddr, Payload, ServerMessage}
use voices.Forwarder.{Conn, Forwarder}
use voices.Forwarder.Socket.{reply_to, socket_msg, on_payload, ip_disco}

pub data SetupError : Type 0 where
  udp : SetupError
  timeout : SetupError
  bad_data : SetupError
  context : SetupError → SetupError

pub data Setup (A : Type 0) : Type 0 where
  ok : A → Setup A
  err : SetupError → Setup A

-- What `recv` gives within its time.
pub data Answer : Type 0 where
  elapsed : Answer
  recv_failed : Answer
  answered : Option ServerMessage → Answer

-- `UdpSetup::new`, whose error says which of the two calls failed.
unfoldable pub setup_new : Bool → Bool → Setup (Unit {0})
setup_new false connected = err udp
setup_new true false = err (context udp)
setup_new true true = ok tt

abbrev pub external_addr : ℕ → Option IpAddr → Setup SocketAddr
external_addr port none = err bad_data
external_addr port (some ip) = ok (record { ip = ip; port = port % 2 ^ 16 })

module _ (from_str : IpAddr → Option IpAddr) where
  abbrev pub on_answer : Answer → Setup SocketAddr
  on_answer elapsed = err timeout
  on_answer recv_failed = err udp
  on_answer (answered none) = err bad_data
  on_answer (answered (some (ServerMessage.ip_disco d))) = external_addr d.port (from_str d.ip)
  on_answer (answered (some (ServerMessage.pong p))) = err bad_data
  on_answer (answered (some (ServerMessage.voice v))) = err bad_data

  -- `discover_ip`
  unfoldable pub discover_ip : Bool → Answer → Setup SocketAddr
  discover_ip false a = err udp
  discover_ip true a = on_answer a

  -- A client whose source id the forwarder knows and whose request comes from `addr` is answered, and
  -- from that answer it learns `addr`, if the parser reads back the text of its address.
  pub discovers :
      (f : Forwarder) (conn : Conn) (addr : SocketAddr) (uuid : List ℕ) (source_id : ℕ)
      → lookup source_id f.connections ≡ some conn
      → from_str addr.ip ≡ some addr.ip
      → addr.port < 2 ^ 16
      → (m : ServerMessage) × (socket_msg f addr (record {
        payload = some (Payload.ip_disco (record { uuid = uuid; source_id = source_id }));
      })
          ≡ reply_to m addr)
        × (discover_ip true (answered (some m)) ≡ ok addr)
  unfolding discover_ip socket_msg on_payload ip_disco
  discovers f conn addr uuid source_id h p lt = (
    ServerMessage.ip_disco (record { ip = addr.ip; port = addr.port }),
    ground arith,
    ground arith,
  )
