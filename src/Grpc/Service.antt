-- ===== src/Grpc/Service.antt =====
-- server/voice/grpc/src/service.rs: the gRPC service of a voice server.
use voices.Common.{ℕ, some}
use voices.Crypto.{Aead}
use voices.Forwarder.{Random}
use voices.VoiceServer.{VoiceServer}
use voices.VoiceServer.Requests.{
  Result, ok, err, OpenConnectionError, LeaveError, EstablishSessionError, StatusError,
  open_connection_at, establish_session, leave_channel, user_status, channel_status,
}
use voices.Grpc.{
  Text, Codec, not_found, unavailable, internal, Status, OpenConnectionRequest,
  OpenConnectionResponse, EstablishSessionRequest, EstablishSessionResponse, LeaveRequest,
  UserStatusRequest, UserStatusResponse, StatusResponse, other_status, map_err, map_ok, read_open,
  read_establish, read_pair, read_channel, write_data, write_peers, write_state,
}

abbrev pub peer_not_found : Status
peer_not_found = other_status not_found "client not present"

abbrev pub channel_not_found : Status
channel_not_found = other_status not_found "channel not hosted here"

abbrev pub map_open_connection_error : OpenConnectionError → Status
map_open_connection_error OpenConnectionError.no_open_ports = other_status unavailable "server full"
map_open_connection_error OpenConnectionError.other = other_status internal "internal error"
map_open_connection_error OpenConnectionError.channel_not_found = channel_not_found

abbrev pub map_establish_session_error : EstablishSessionError → Status
map_establish_session_error EstablishSessionError.peer_not_here = peer_not_found
map_establish_session_error EstablishSessionError.other = other_status internal "internal error"
map_establish_session_error EstablishSessionError.channel_not_found = channel_not_found

abbrev pub map_leave_error : LeaveError → Status
map_leave_error LeaveError.peer_not_here = peer_not_found
map_leave_error LeaveError.channel_not_found = channel_not_found

abbrev pub map_status_error : StatusError → Status
map_status_error StatusError.peer_not_here = peer_not_found
map_status_error StatusError.channel_not_found = channel_not_found
map_status_error StatusError.other = other_status internal "internal error"

-- A request that cannot be read is refused; any other is answered by the voice server, whose error
-- becomes a status.
abbrev pub serve :
    {R A B E : Type 0}
    → VoiceServer
    → (E → Status)
    → (A → B)
    → (R → Result A E × VoiceServer)
    → Result R Status
    → Result B Status × VoiceServer
serve s refuse write call (err e) = (err e, s)
serve s refuse write call (ok r) = let (a, s') = call r in (map_ok write (map_err refuse a), s')

module _ (codec : Codec) (aead : Aead) (now : ℕ) where
  unfoldable pub serve_open :
      Random
      → OpenConnectionRequest
      → VoiceServer
      → Result OpenConnectionResponse Status × VoiceServer
  unfolding open_connection_at read_open write_data
  serve_open rand req s =
      serve s map_open_connection_error (write_data codec)
        (λ r. open_connection_at aead now rand r s) (read_open codec req)

  unfoldable pub serve_establish :
      EstablishSessionRequest → VoiceServer → Result EstablishSessionResponse Status × VoiceServer
  unfolding establish_session read_establish
  serve_establish req s =
      serve s map_establish_session_error (λ key. record { crypt_key = key })
        (λ r. establish_session aead now r s) (read_establish codec req)

  unfoldable pub serve_leave : LeaveRequest → VoiceServer → Result (Unit {0}) Status × VoiceServer
  unfolding leave_channel read_pair
  serve_leave req s =
      serve s map_leave_error (λ u. u) (λ r. leave_channel aead now r.1 r.0 s)
        (read_pair codec req.user_id req.channel_id)

  unfoldable pub serve_user_status :
      UserStatusRequest → VoiceServer → Result UserStatusResponse Status × VoiceServer
  unfolding user_status read_pair
  serve_user_status req s =
      serve s map_status_error (λ st. record { status = some (write_state st) })
        (λ r. user_status aead now r.1 r.0 s) (read_pair codec req.user_id req.channel_id)

  unfoldable pub serve_status : Text → VoiceServer → Result StatusResponse Status × VoiceServer
  unfolding channel_status read_channel write_peers
  serve_status channel_id s =
      serve s map_status_error (write_peers codec) (λ r. channel_status aead now r s)
        (read_channel codec channel_id)
