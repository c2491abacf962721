-- ===== src/Hosts/Same.antt =====
-- server/gateway/src/voice_instance: what a session sees of a remote host, compared to an integrated
-- one that has the same voice server.
use voices.Common.{
  ℕ, ◌^◌, ◌<◌, ◌≡◌, some, List, [], ◌∷◌, map, arith, refl, ap, lt→ltb, if◌then◌else◌,
}
use voices.Crypto.{Aead}
use voices.Connection.{ConnectionState, is_waiting, is_peered, is_stopped}
use voices.Forwarder.{Peer, Random}
use voices.VoiceServer.{VoiceServer}
use voices.VoiceServer.Requests.{
  Result, ok, err, OpenConnection, ConnectionData, EstablishSession, OpenConnectionError,
  LeaveError, EstablishSessionError, StatusError, open_connection_at, establish_session,
  leave_channel, user_status, channel_status,
}
use voices.Grpc.{
  text, Codec, Status, map_err, map_ok, write_data, write_peer, write_peers, write_state, read_open,
  read_establish, read_pair, read_channel,
}
use voices.Grpc.Service.{
  serve_open, serve_establish, serve_leave, serve_user_status, serve_status,
  map_open_connection_error, map_establish_session_error, map_leave_error, map_status_error,
}
use voices.Hosts.{
  HostError, missing, other, Request, open_connection, establish, leave, status_of, peers_of,
  Response, opened, established, left, user_state, present, open_error, establish_error, contains,
  leave_error, status_error, Answered, answer, integrated_host, from_status, or_other, read_state,
  receive, read_data, read_peers, write_open, write_establish, remote_host,
}

-- The error of a remote host for that of an integrated one: a missing client is not named.
abbrev pub renamed : HostError → HostError
renamed (missing name) =
    if contains (text "peer") name then missing (text "something") else missing name
renamed other = other

abbrev pub over_grpc : Answered → Answered
over_grpc (r, s) = (map_err renamed r, s)

-- The addresses in a request and in an answer have ports of 16 bits.
abbrev pub HasPort : Request → Type 0
HasPort (establish req) = req.client_addr.port < 2 ^ 16
HasPort _ = Unit

abbrev pub HasPorts : Result Response HostError → Type 0
HasPorts (ok (opened d)) = d.sock.port < 2 ^ 16
HasPorts _ = Unit

open_errors :
    (e : OpenConnectionError) → from_status (map_open_connection_error e) ≡ renamed (open_error e)
unfolding from_status
open_errors OpenConnectionError.channel_not_found = refl
open_errors OpenConnectionError.no_open_ports = refl
open_errors OpenConnectionError.other = refl

establish_errors :
    (e : EstablishSessionError)
    → from_status (map_establish_session_error e) ≡ renamed (establish_error e)
unfolding from_status
establish_errors EstablishSessionError.peer_not_here = refl
establish_errors EstablishSessionError.channel_not_found = refl
establish_errors EstablishSessionError.other = refl

leave_errors : (e : LeaveError) → from_status (map_leave_error e) ≡ renamed (leave_error e)
unfolding from_status
leave_errors LeaveError.peer_not_here = refl
leave_errors LeaveError.channel_not_found = refl

status_errors : (e : StatusError) → from_status (map_status_error e) ≡ renamed (status_error e)
unfolding from_status
status_errors StatusError.peer_not_here = refl
status_errors StatusError.channel_not_found = refl
status_errors StatusError.other = refl

-- An answer that is written by the service and read by the host.
carried :
    {A B E : Type 0} (refuse : E → Status) (write : A → B) (read : B → Result Response HostError)
    (f : E → HostError) (g : A → Response) (x : Result A E × VoiceServer)
    → ((e : E) → from_status (refuse e) ≡ renamed (f e))
    → ((a : A) → x.0 ≡ ok a → read (write a) ≡ ok (g a))
    → receive read (map_ok write (map_err refuse x.0), x.1) ≡ over_grpc (answer f g x)
carried refuse write read f g (ok a, s') h k = ap (λ r. (r, s')) (k a refl)
carried refuse write read f g (err b, s') h k = ap (λ e. (err e, s')) (h b)

read-write_data :
    (codec : Codec) (d : ConnectionData)
    → d.sock.port < 2 ^ 16
    → read_data codec (write_data codec d) ≡ ok d
unfolding read_data write_data
read-write_data codec d lt = rw (codec.ip-round d.sock.ip, lt→ltb d.sock.port (2 ^ 16) lt) refl

read-write_peers :
    (codec : Codec) (ps : List Peer) → read_peers codec (map (write_peer codec) ps) ≡ ok ps
unfolding read_peers
read-write_peers codec [] = refl
read-write_peers codec (p ∷ ps) = rw (codec.uuid-round p.id, read-write_peers codec ps) refl

read-write_state : (st : ConnectionState) → read_state (write_state st) ≡ st
read-write_state is_waiting = refl
read-write_state is_peered = refl
read-write_state is_stopped = refl

read-write_open : (codec : Codec) (r : OpenConnection) → read_open codec (write_open codec r) ≡ ok r
unfolding read_open write_open
read-write_open codec r = rw (codec.uuid-round r.client_id, codec.uuid-round r.channel_id) refl

read-write_establish :
    (codec : Codec) (r : EstablishSession)
    → r.client_addr.port < 2 ^ 16
    → read_establish codec (write_establish codec r) ≡ ok r
unfolding read_establish write_establish
read-write_establish codec r lt =
    rw
      (
        codec.uuid-round r.client_id,
        codec.uuid-round r.channel_id,
        codec.ip-round r.client_addr.ip,
        lt→ltb r.client_addr.port (2 ^ 16) lt,
      )
      refl

read-write_pair :
    (codec : Codec) (client channel : ℕ)
    → read_pair codec (codec.uuid_to_string client) (codec.uuid_to_string channel)
      ≡ ok (client, channel)
unfolding read_pair
read-write_pair codec client channel = rw (codec.uuid-round client, codec.uuid-round channel) refl

read-write_channel :
    (codec : Codec) (channel : ℕ) → read_channel codec (codec.uuid_to_string channel) ≡ ok channel
unfolding read_channel
read-write_channel codec channel = rw (codec.uuid-round channel) refl

read-write_StatusResponse :
    (codec : Codec) (ps : List Peer) → read_peers codec (write_peers codec ps).info ≡ ok ps
unfolding write_peers
read-write_StatusResponse codec ps = read-write_peers codec ps

port_of :
    {E : Type 0} (f : E → HostError) (x : Result ConnectionData E × VoiceServer)
    (d : ConnectionData)
    → x.0 ≡ ok d
    → HasPorts (answer f opened x).0
    → d.sock.port < 2 ^ 16
port_of f (ok d', s) d e q = ground arith
port_of f (err b, s) d e q = absurd cc

module _ (codec : Codec) (aead : Aead) (now : ℕ) (rand : Random) where
  -- With the same voice server behind them and an answer from the service, a remote host gives each
  -- request the answer of an integrated host and leaves the voice server in the same state, but for the
  -- name in a NotFound that is about a client, which becomes that of something unnamed; as long as
  -- the ports of the addresses that are sent have 16 bits.
  pub remote-integrated :
      (req : Request) (s : VoiceServer)
      → HasPort req
      → HasPorts (integrated_host aead now rand req s).0
      → remote_host codec aead now rand req s ≡ over_grpc (integrated_host aead now rand req s)
  unfolding remote_host integrated_host serve_open serve_establish serve_leave serve_user_status
      serve_status
  remote-integrated (open_connection req) s p q = rw (read-write_open codec req) (
      carried map_open_connection_error (write_data codec) (λ r. map_ok opened (read_data codec r))
        open_error opened (open_connection_at aead now rand req s) open_errors
        (λ d e. ap (map_ok opened) (
          read-write_data codec d
            (port_of open_error (open_connection_at aead now rand req s) d e q))))
  remote-integrated (establish req) s p q = rw (read-write_establish codec req p) (
      carried map_establish_session_error (λ key. record { crypt_key = key })
        (λ r. ok (established r.crypt_key)) establish_error established
        (establish_session aead now req s) establish_errors (λ a e. refl))
  remote-integrated (leave channel client) s p q = rw (read-write_pair codec client channel) (
      carried map_leave_error (λ u. u) (λ u. ok left) leave_error (λ u. left)
        (leave_channel aead now channel client s) leave_errors (λ a e. refl))
  remote-integrated (status_of channel client) s p q = rw (read-write_pair codec client channel) (
      carried map_status_error (λ st. record { status = some (write_state st) })
        (λ r. map_ok (λ st. user_state (read_state st)) (or_other r.status)) status_error user_state
        (user_status aead now channel client s) status_errors
        (λ st e. ap (λ x. ok (user_state x)) (read-write_state st)))
  remote-integrated (peers_of channel) s p q = rw (read-write_channel codec channel) (
      carried map_status_error (write_peers codec) (λ r. map_ok present (read_peers codec r.info))
        status_error present (channel_status aead now channel s) status_errors
        (λ ps e. ap (map_ok present) (read-write_StatusResponse codec ps)))
