-- ===== src/Grpc.antt =====
-- server/voice/grpc: the messages of the voice server's gRPC service (service.proto), and how
-- src/service.rs at the server and server/gateway/src/voice_instance/remote.rs at the gateway write and
-- read them. A text is the list of its code points; how an id or an address is printed and parsed is
-- the library's, and so a parameter.
pub mod Service
pub mod Numbers
use Prim.Native.Char.{code}
use voices.Common.{
  ℕ, ◌^◌, ◌<◌, ◌≡◌, Bool, true, false, Option, none, some, List, [], ◌∷◌, map, String, ltb, ◌==◌,
  ◌&&◌, ◌||◌, if◌then◌else◌,
}
use voices.Net.{IpAddr, SocketAddr}
use voices.Connection.{ConnectionState, is_waiting, is_peered, is_stopped}
use voices.Forwarder.{Peer}
use voices.VoiceServer.Requests.{
  Result, ok, err, OpenConnection, ConnectionData, EstablishSession, OpenConnectionError,
  LeaveError, EstablishSessionError, StatusError,
}

abbrev pub Text : Type 0
Text = List ℕ

abbrev pub text : String → Text
text String.[] = []
text (String.◌∷◌ c s) = code c ∷ text s

-- `to_string` and `from_str` of ids and of addresses; what is printed is read back.
pub record Codec : Type 0 where
  pub uuid_to_string : ℕ → Text
  pub uuid_from_str : Text → Option ℕ
  pub ip_to_string : IpAddr → Text
  pub ip_from_str : Text → Option IpAddr
  pub uuid-round : (u : ℕ) → uuid_from_str (uuid_to_string u) ≡ some u
  pub ip-round : (ip : IpAddr) → ip_from_str (ip_to_string ip) ≡ some ip

pub data Code : Type 0 where
  invalid_argument not_found unavailable internal : Code

pub record Status : Type 0 where
  pub code : Code
  pub message : Text

pub record SockAddr : Type 0 where
  pub ip : Text
  pub port : ℕ

pub record OpenConnectionRequest : Type 0 where
  pub user_name : String
  pub user_id : Text
  pub channel_id : Text

pub record OpenConnectionResponse : Type 0 where
  pub udp_sock : Option SockAddr
  pub src_id : ℕ

pub record EstablishSessionRequest : Type 0 where
  pub user_id : Text
  pub channel_id : Text
  pub client_sock : Option SockAddr

pub record EstablishSessionResponse : Type 0 where
  pub crypt_key : List ℕ

pub record LeaveRequest : Type 0 where
  pub user_id : Text
  pub channel_id : Text

pub record UserStatusRequest : Type 0 where
  pub channel_id : Text
  pub user_id : Text

pub data UserStatus : Type 0 where
  waiting peered error : UserStatus

pub record UserStatusResponse : Type 0 where
  pub status : Option UserStatus

pub record ClientInfo : Type 0 where
  pub client_id : Text
  pub src_id : ℕ
  pub name : String

pub record StatusResponse : Type 0 where
  pub info : List ClientInfo

-- A chain of steps, each of which may fail.
infixl 5 ◌>>=◌
abbrev pub ◌>>=◌ {ℓ κ μ} :
    {A : Type ℓ} {B : Type κ} {E : Type μ} → Result A E → (A → Result B E) → Result B E
ok a >>= f = f a
err e >>= f = err e

abbrev pub map_err {ℓ κ μ} :
    {A : Type ℓ} {E : Type κ} {F : Type μ} → (E → F) → Result A E → Result A F
map_err f (ok a) = ok a
map_err f (err e) = err (f e)

abbrev pub map_ok {ℓ κ μ} :
    {A : Type ℓ} {B : Type κ} {E : Type μ} → (A → B) → Result A E → Result B E
map_ok f (ok a) = ok (f a)
map_ok f (err e) = err e

-- `parse` and `try_opt` answer with a status that names the field.
abbrev pub bad : {A : Type 0} → Text → Option A → Result A Status
bad message (some a) = ok a
bad message none = err (record { code = invalid_argument; message = message })

-- `u32` to `u16`
abbrev pub to_u16 : {E : Type 0} → E → ℕ → Result ℕ E
to_u16 e n = if ltb n (2 ^ 16) then ok n else err e

abbrev pub other_status : Code → String → Status
other_status c m = record { code = c; message = text m }

abbrev pub missing : {A : Type 0} → Text → Option A → Result A Status
missing message o = bad message o

-- `From<SocketAddr>`, and the two conversions back.
module _ (codec : Codec) where
  abbrev pub write_addr : SocketAddr → SockAddr
  write_addr a = record { ip = codec.ip_to_string a.ip; port = a.port }

  -- `TryFrom<OpenConnectionRequest>`
  unfoldable pub read_open : OpenConnectionRequest → Result OpenConnection Status
  read_open req = bad (text "bad user_id") (codec.uuid_from_str req.user_id) >>= λ client_id.
      bad (text "bad channel_id") (codec.uuid_from_str req.channel_id) >>= λ channel_id.
      ok (record { user_name = req.user_name; channel_id = channel_id; client_id = client_id })

  -- `TryFrom<EstablishSessionRequest>`
  unfoldable pub read_establish : EstablishSessionRequest → Result EstablishSession Status
  read_establish req = bad (text "bad user_id") (codec.uuid_from_str req.user_id) >>= λ client_id.
      bad (text "bad channel_id") (codec.uuid_from_str req.channel_id) >>= λ channel_id.
      missing (text "missing client_sock") req.client_sock >>= λ sock.
      bad (text "bad client_sock.ip") (codec.ip_from_str sock.ip) >>= λ ip.
      to_u16 (other_status invalid_argument "port out of range") sock.port >>= λ port. ok (record {
        channel_id = channel_id;
        client_id = client_id;
        client_addr = record { ip = ip; port = port };
      })

  -- A user and a channel, as `leave` and `user_status` read them.
  unfoldable pub read_pair : Text → Text → Result (ℕ × ℕ) Status
  read_pair user_id channel_id =
      bad (text "bad user_id") (codec.uuid_from_str user_id) >>= λ client.
      bad (text "bad channel_id") (codec.uuid_from_str channel_id) >>= λ channel.
      ok (client, channel)

  unfoldable pub read_channel : Text → Result ℕ Status
  read_channel channel_id = bad (text "bad channel_id") (codec.uuid_from_str channel_id)

  -- `From<ConnectionData>`
  unfoldable pub write_data : ConnectionData → OpenConnectionResponse
  write_data d = record { udp_sock = some (write_addr d.sock); src_id = d.source_id }

  abbrev pub write_peer : Peer → ClientInfo
  write_peer p = record {
    client_id = codec.uuid_to_string p.id;
    src_id = p.source_id;
    name = p.name;
  }

  unfoldable pub write_peers : List Peer → StatusResponse
  write_peers ps = record { info = map write_peer ps }

-- `From<ConnectionState>`
abbrev pub write_state : ConnectionState → UserStatus
write_state is_waiting = waiting
write_state is_peered = peered
write_state is_stopped = error
