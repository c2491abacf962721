-- ===== src/Hosts.antt =====
-- server/gateway/src/voice_instance: the voice hosts that a gateway talks to. The integrated host calls
-- the voice server of its own process, the remote one calls it over gRPC.
pub mod Same
pub mod Choice
pub mod Chosen
mod Examples
use voices.Common.{
  ℕ, ◌≡◌, Bool, true, false, Option, none, some, List, [], ◌∷◌, String, ◌==◌, ◌&&◌, ◌||◌,
  if◌then◌else◌,
}
use voices.Crypto.{Aead}
use voices.Net.{SocketAddr}
use voices.Connection.{ConnectionState, is_waiting, is_peered, is_stopped}
use voices.Forwarder.{Peer, Random}
use voices.VoiceServer.{VoiceServer}
use voices.VoiceServer.Requests.{
  Result, ok, err, OpenConnection, ConnectionData, EstablishSession, OpenConnectionError,
  LeaveError, EstablishSessionError, StatusError, open_connection_at, establish_session,
  leave_channel, user_status, channel_status,
}
use voices.Grpc.{
  Text, text, Codec, Code, invalid_argument, not_found, unavailable, internal, Status, SockAddr,
  OpenConnectionRequest, OpenConnectionResponse, EstablishSessionRequest, EstablishSessionResponse,
  LeaveRequest, UserStatusRequest, UserStatus, waiting, peered, error, UserStatusResponse,
  ClientInfo, StatusResponse, map_err, map_ok, to_u16, write_addr, ◌>>=◌,
}
use voices.Grpc.Service.{serve_open, serve_establish, serve_leave, serve_user_status, serve_status}

-- `VoiceHostError`; the error inside `Other` is left out.
pub data HostError : Type 0 where
  missing : Text → HostError
  other : HostError

-- mod.rs: the trait `VoiceHost`, as one type of requests and one of answers.
pub data Request : Type 0 where
  open_connection : OpenConnection → Request
  establish : EstablishSession → Request
  leave : ℕ → ℕ → Request
  status_of : ℕ → ℕ → Request
  peers_of : ℕ → Request

pub data Response : Type 0 where
  opened : ConnectionData → Response
  established : List ℕ → Response
  left : Response
  user_state : ConnectionState → Response
  present : List Peer → Response

-- integrated.rs: the conversions of the errors.
abbrev pub open_error : OpenConnectionError → HostError
open_error OpenConnectionError.channel_not_found = missing (text "channel")
open_error OpenConnectionError.no_open_ports = other
open_error OpenConnectionError.other = other

abbrev pub establish_error : EstablishSessionError → HostError
establish_error EstablishSessionError.peer_not_here = missing (text "peer")
establish_error EstablishSessionError.channel_not_found = missing (text "channel")
establish_error EstablishSessionError.other = other

abbrev pub leave_error : LeaveError → HostError
leave_error LeaveError.peer_not_here = missing (text "peer")
leave_error LeaveError.channel_not_found = missing (text "channel")

abbrev pub status_error : StatusError → HostError
status_error StatusError.peer_not_here = missing (text "peer")
status_error StatusError.channel_not_found = missing (text "channel")
status_error StatusError.other = other

abbrev pub Answered : Type 0
Answered = Result Response HostError × VoiceServer

-- An answer of the voice server as one of a host.
abbrev pub answer :
    {A E : Type 0} → (E → HostError) → (A → Response) → Result A E × VoiceServer → Answered
answer f g (r, s) = (map_ok g (map_err f r), s)

module _ (aead : Aead) (now : ℕ) (rand : Random) where
  -- `impl VoiceHost for IntegratedVoiceHost`
  unfoldable pub integrated_host : Request → VoiceServer → Answered
  unfolding open_connection_at establish_session leave_channel user_status channel_status
  integrated_host (open_connection req) s =
      answer open_error opened (open_connection_at aead now rand req s)
  integrated_host (establish req) s =
      answer establish_error established (establish_session aead now req s)
  integrated_host (leave channel client) s =
      answer leave_error (λ u. left) (leave_channel aead now channel client s)
  integrated_host (status_of channel client) s =
      answer status_error user_state (user_status aead now channel client s)
  integrated_host (peers_of channel) s =
      answer status_error present (channel_status aead now channel s)

-- `str::contains`
abbrev pub starts_with : Text → Text → Bool
starts_with [] m = true
starts_with (a ∷ p) [] = false
starts_with (a ∷ p) (b ∷ m) = a == b && starts_with p m

abbrev pub contains : Text → Text → Bool
contains p [] = starts_with p []
contains p (b ∷ m) = starts_with p (b ∷ m) || contains p m

-- remote.rs: `From<Status> for VoiceHostError`
abbrev pub named : Text → HostError
named message =
    if contains (text "peer") message
    then missing (text "client")
    else if contains (text "channel") message
    then missing (text "channel")
    else missing (text "something")

unfoldable pub from_status : Status → HostError
from_status st = elim st.code [ not_found ↦ named st.message | _ ↦ other ]

-- An error of parsing is `Other`.
abbrev pub or_other : {A : Type 0} → Option A → Result A HostError
or_other (some a) = ok a
or_other none = err other

abbrev pub read_state : UserStatus → ConnectionState
read_state error = is_stopped
read_state peered = is_peered
read_state waiting = is_waiting

-- `From<Response<StatusResponse>>` and the like: an answer of the service as one of a host.
abbrev pub receive :
    {B : Type 0} → (B → Result Response HostError) → Result B Status × VoiceServer → Answered
receive read (r, s) = (map_err from_status r >>= read, s)

module _ (codec : Codec) where
  -- `TryFrom<OpenConnectionResponse> for ConnectionData`
  unfoldable pub read_data : OpenConnectionResponse → Result ConnectionData HostError
  read_data r = or_other r.udp_sock >>= λ sock. or_other (codec.ip_from_str sock.ip) >>= λ ip.
      to_u16 other sock.port >>= λ port.
      ok (record { sock = record { ip = ip; port = port }; source_id = r.src_id })

  -- `TryFrom<StatusResponse> for Vec<Peer>`
  unfoldable pub read_peers : List ClientInfo → Result (List Peer) HostError
  read_peers [] = ok []
  read_peers (v ∷ vs) = or_other (codec.uuid_from_str v.client_id) >>= λ id.
      read_peers vs >>= λ ps. ok (record { id = id; source_id = v.src_id; name = v.name } ∷ ps)

  -- `From<OpenConnection>` and `From<EstablishSession>`
  unfoldable pub write_open : OpenConnection → OpenConnectionRequest
  write_open r = record {
    user_name = r.user_name;
    user_id = codec.uuid_to_string r.client_id;
    channel_id = codec.uuid_to_string r.channel_id;
  }

  unfoldable pub write_establish : EstablishSession → EstablishSessionRequest
  write_establish r = record {
    user_id = codec.uuid_to_string r.client_id;
    channel_id = codec.uuid_to_string r.channel_id;
    client_sock = some (write_addr codec r.client_addr);
  }

  module _ (aead : Aead) (now : ℕ) (rand : Random) where
    -- `impl VoiceHost for RemoteVoiceHost`, when the service answers.
    unfoldable pub remote_host : Request → VoiceServer → Answered
    unfolding serve_open serve_establish serve_leave serve_user_status serve_status read_data
        read_peers write_open write_establish from_status
    remote_host (open_connection req) s =
        receive (λ r. map_ok opened (read_data r))
          (serve_open codec aead now rand (write_open req) s)
    remote_host (establish req) s =
        receive (λ r. ok (established r.crypt_key))
          (serve_establish codec aead now (write_establish req) s)
    remote_host (leave channel client) s =
        receive (λ u. ok left)
          (serve_leave codec aead now
            (record {
              user_id = codec.uuid_to_string client;
              channel_id = codec.uuid_to_string channel;
            })
            s)
    remote_host (status_of channel client) s =
        receive (λ r. map_ok (λ st. user_state (read_state st)) (or_other r.status))
          (serve_user_status codec aead now
            (record {
              channel_id = codec.uuid_to_string channel;
              user_id = codec.uuid_to_string client;
            })
            s)
    remote_host (peers_of channel) s =
        receive (λ r. map_ok present (read_peers r.info))
          (serve_status codec aead now (codec.uuid_to_string channel) s)
