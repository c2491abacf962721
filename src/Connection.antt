-- ===== src/Connection.antt =====
-- server/voice/core/src/channel/connection.rs: the task of one voice connection.
-- A message to the task, a datagram from the forwarder, a packet on the channel's broadcast and a
-- timer that fires are the events; one call of `step` is one round of the `select!` of the phase
-- that the task is in. An event that the phase does not poll leaves the task as it is. Times are
-- milliseconds. `sent` says whether `send_to` on the UDP socket succeeds. What the task answers on a
-- `oneshot`, sends on the socket or puts on the broadcast is its output.
pub mod Wire
pub mod KeepAlive
pub mod Counters
pub mod Relay
mod Examples
use voices.Common.{
  ℕ, ◌+◌, ◌%◌, ◌^◌, Bool, true, false, Option, none, some, List, [], ◌∷◌, ◌++◌, leb, ◌==◌,
  if◌then◌else◌,
}
use voices.Net.{SocketAddr, Voice, Ping, Pong, ServerMessage}
use voices.Crypto.{Aead, encrypt, decrypt}

-- server/voice/models/src/lib.rs
pub data ConnectionState : Type 0 where
  is_waiting is_peered is_stopped : ConnectionState

pub data InternalMsg : Type 0 where
  voice : Voice → InternalMsg
  ping : Ping → InternalMsg

pub data ControlRequest : Type 0 where
  init : SocketAddr → ControlRequest
  status : ControlRequest
  stop : ControlRequest

-- `broadcast::Receiver::recv`
pub data Recv : Type 0 where
  received : ℕ → Voice → Recv
  lagged : ℕ → Recv
  closed : Recv

pub data Event : Type 0 where
  ctl : Option ControlRequest → Event
  udp_pkt : Option InternalMsg → Event
  voice_rx : Recv → Event
  timer : Event

pub data Output : Type 0 where
  init_response : List ℕ → ℕ → Output
  status_response : ConnectionState → Output
  stop_response : Output
  send_to : ServerMessage → SocketAddr → Output
  voice_tx : ℕ → Voice → Output

-- The variables of `peered`.
pub record Peering : Type 0 where
  pub addr : SocketAddr
  pub seq : ℕ
  pub sent : ℕ
  pub received : ℕ
  pub ping_deadline : ℕ

pub data Phase : Type 0 where
  waiting : ℕ → Phase
  peered : Peering → Phase
  stopped : Phase

pub record VoiceConnection : Type 0 where
  pub client_id : ℕ
  pub source_id : ℕ
  pub crypt_key : List ℕ
  pub phase : Phase

abbrev pub idle_timeout : ℕ
idle_timeout = 15000

-- `+= 1` on a `u64`, as it wraps in a release build.
abbrev pub incr_u64 : ℕ → ℕ
incr_u64 n = (n + 1) % 2 ^ 64

-- `VoiceConnection::start`: the task begins to wait for the client's address. The source id and the
-- key come from the random number generator.
unfoldable pub start : ℕ → ℕ → ℕ → List ℕ → VoiceConnection
start now client_id source_id crypt_key = record {
  client_id = client_id;
  source_id = source_id;
  crypt_key = crypt_key;
  phase = waiting (now + idle_timeout);
}

abbrev enter : VoiceConnection → Phase → VoiceConnection
enter c p = record c { phase = p }

abbrev init_reply : VoiceConnection → Output
init_reply c = init_response c.crypt_key c.source_id

-- `run`: the `select!` of the waiting phase.
unfoldable pub waiting_step : ℕ → VoiceConnection → ℕ → Event → VoiceConnection × List Output
waiting_step now c deadline (ctl (some (init client_addr))) = (
  enter c (
      peered (record {
        addr = client_addr;
        seq = 0;
        sent = 0;
        received = 0;
        ping_deadline = now + idle_timeout;
      })),
  init_reply c ∷ [],
)
waiting_step now c deadline (ctl (some stop)) = (enter c stopped, stop_response ∷ [])
waiting_step now c deadline (ctl (some status)) = (c, status_response is_waiting ∷ [])
waiting_step now c deadline (ctl none) = (enter c stopped, [])
waiting_step now c deadline timer = if leb deadline now then (enter c stopped, []) else (c, [])
waiting_step now c deadline (udp_pkt m) = (c, [])
waiting_step now c deadline (voice_rx r) = (c, [])

-- `peered`, on a packet from the client: it is decrypted and goes out on the broadcast.
unfoldable pub on_voice :
    VoiceConnection → Peering → Voice → Option (List ℕ) → VoiceConnection × List Output
on_voice c p v none = (enter c stopped, [])
on_voice c p v (some payload) = (
  enter c (peered (record p { received = incr_u64 p.received; seq = v.sequence })),
  voice_tx c.source_id (record v { payload = payload }) ∷ [],
)

-- `peered`, on a ping: the deadline moves and a pong is sent.
unfoldable pub on_ping : ℕ → Bool → VoiceConnection → Peering → Ping → VoiceConnection × List Output
on_ping now true c p g = (
  enter c (peered (record p { ping_deadline = now + idle_timeout })),
  send_to (ServerMessage.pong (record { seq = g.seq; sent = p.sent; received = p.received })) p.addr
      ∷ [],
)
on_ping now false c p g = (enter c stopped, [])

-- `peered`, on another member's packet: it is encrypted with this connection's key and sent.
unfoldable pub on_forward :
    Bool → VoiceConnection → Peering → Voice → Option (List ℕ) → VoiceConnection × List Output
on_forward sent c p v none = (enter c stopped, [])
on_forward true c p v (some payload) = (
  enter c (peered (record p { sent = incr_u64 p.sent })),
  send_to (ServerMessage.voice (record v { payload = payload })) p.addr ∷ [],
)
on_forward false c p v (some payload) = (enter c stopped, [])

-- `peered`: its `select!`.
unfoldable pub peered_step :
    Aead → ℕ → Bool → VoiceConnection → Peering → Event → VoiceConnection × List Output
unfolding on_voice on_ping on_forward decrypt encrypt
peered_step aead now sent c p (udp_pkt (some (voice v))) =
    on_voice c p v (decrypt aead c.crypt_key v.payload v.sequence v.stream_time)
peered_step aead now sent c p (udp_pkt (some (ping g))) = on_ping now sent c p g
peered_step aead now sent c p (udp_pkt none) = (enter c stopped, [])
peered_step aead now sent c p (voice_rx (received rx_pkt_id v)) =
    if c.source_id == rx_pkt_id
    then (c, [])
    else on_forward sent c p v (encrypt aead c.crypt_key v.payload v.sequence v.stream_time)
peered_step aead now sent c p (voice_rx (lagged n)) = (c, [])
peered_step aead now sent c p (voice_rx closed) = (enter c stopped, [])
peered_step aead now sent c p timer =
    if leb p.ping_deadline now then (enter c stopped, []) else (c, [])
peered_step aead now sent c p (ctl (some (init client_addr))) = (c, init_reply c ∷ [])
peered_step aead now sent c p (ctl (some status)) = (c, status_response is_peered ∷ [])
peered_step aead now sent c p (ctl none) = (enter c stopped, [])
peered_step aead now sent c p (ctl (some stop)) = (enter c stopped, stop_response ∷ [])

pub record Round : Type 0 where
  pub now : ℕ
  pub sent : Bool
  pub event : Event

unfoldable pub phase_step : Aead → VoiceConnection → Round → Phase → VoiceConnection × List Output
unfolding waiting_step peered_step
phase_step aead c r (waiting deadline) = waiting_step r.now c deadline r.event
phase_step aead c r (peered p) = peered_step aead r.now r.sent c p r.event
phase_step aead c r stopped = (c, [])

unfoldable pub step : Aead → VoiceConnection → Round → VoiceConnection × List Output
unfolding phase_step
step aead c r = phase_step aead c r c.phase

unfoldable pub run : Aead → VoiceConnection → List Round → VoiceConnection × List Output
run aead c [] = (c, [])
run aead c (r ∷ rs) =
    let (c', out) = step aead c r in let (end, outs) = run aead c' rs in (end, out ++ outs)
