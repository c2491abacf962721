-- ===== src/ChannelRegistry/Remote.antt =====
-- server/channels/grpc/src/service.rs, the gRPC service of the channels, and the calls of it by
-- server/gateway/src/channel_registry/distributed.rs.
use voices.Common.{ℕ, Option, none, some, List, String, map, leb, if◌then◌else◌}
use voices.VoiceServer.Requests.{Result, ok, err}
use voices.Registry.{Tables, cleanup_stale}
use voices.Registry.Query.{get_channel, get_server, create_server, create_channel}
use voices.Grpc.{
  Codec, Text, text, invalid_argument, not_found, unavailable, internal, Status, other_status, bad,
  map_ok, ◌>>=◌,
}
use voices.ChannelRegistry.{
  Ask, create_a_server, get_a_server, create_a_channel, get_a_channel, get_servers, cleanup, Reply,
  created, server, channel_created, channel, servers, deleted, Failure, failure, Answered,
  stale_ids, servers_page, unwrap_or,
}
use voices.ChannelRegistry.Wire.{
  GetServersResponse, GetServerResponse, CreateChannelRequest, GetChannelResponse, or_failure,
  write_server, write_channel, write_page, read_server, read_channel, read_rows, read_ids,
}

-- `error_mapper`
abbrev pub internal_error : Status
internal_error = other_status internal "internal server error"

abbrev pub or_status : {A : Type 0} → Status → Option A → Result A Status
or_status st (some a) = ok a
or_status st none = err st

abbrev pub min : ℕ → ℕ → ℕ
min a b = if leb a b then a else b

module _ (codec : Codec) (now id : ℕ) where
  abbrev pub serve_create_server : String → Tables → Result Text Status × Tables
  serve_create_server name t =
      let (sid, t') = create_server id name t in (ok (codec.uuid_to_string sid), t')

  abbrev pub serve_get_server : Text → Tables → Result GetServerResponse Status
  serve_get_server sid t = bad (text "bad server_id") (codec.uuid_from_str sid) >>= λ n.
      or_status (other_status not_found "server not found") (get_server n t) >>= λ s.
      ok (write_server codec s)

  abbrev pub channel_made : Option ℕ × Tables → Result Text Status × Tables
  channel_made (none, t) = (err internal_error, t)
  channel_made (some cid, t) = (ok (codec.uuid_to_string cid), t)

  abbrev pub create_for : String → Tables → Result ℕ Status → Result Text Status × Tables
  create_for name t (err e) = (err e, t)
  create_for name t (ok sid) = channel_made (create_channel now id sid name t)

  abbrev pub serve_create_channel : CreateChannelRequest → Tables → Result Text Status × Tables
  serve_create_channel req t =
      create_for req.name t (bad (text "bad server_id") (codec.uuid_from_str req.server_id))

  abbrev pub serve_get_channel : Text → Tables → Result GetChannelResponse Status
  serve_get_channel cid t = bad (text "bad channel_id") (codec.uuid_from_str cid) >>= λ n.
      or_status (other_status not_found "channel does not exist") (get_channel now n t) >>= λ c.
      ok (write_channel codec c)

  abbrev pub serve_get_servers : Option ℕ → Option ℕ → Tables → Result GetServersResponse Status
  serve_get_servers page per_page t =
      or_status internal_error (servers_page (unwrap_or 1 page) (min (unwrap_or 10 per_page) 100) t)
      >>= λ r. ok (write_page codec r)

  abbrev pub serve_cleanup : Tables → List Text × Tables
  serve_cleanup t = (map codec.uuid_to_string (stale_ids now t.voice_servers), cleanup_stale now t)

-- An error of the service is an error of the gateway.
abbrev pub failed : {A : Type 0} → Result A Status → Result A Failure
failed (ok a) = ok a
failed (err st) = err failure

-- Where `NotFound` means that there is none.
abbrev pub found_or_none :
    {B : Type 0} → (B → Result Reply Failure) → Reply → Result B Status → Result Reply Failure
found_or_none read absent (ok r) = read r
found_or_none read absent (err st) = elim st.code [
  | not_found ↦ ok absent
  | invalid_argument ↦ err failure
  | unavailable ↦ err failure
  | internal ↦ err failure
]

abbrev pub in_state :
    {B : Type 0} → (Result B Status → Result Reply Failure) → Result B Status × Tables → Answered
in_state read (r, t) = (read r, t)

module _ (codec : Codec) (now id : ℕ) where
  -- `impl ChannelRegistry for DistributedChannelRegistry`, when the service answers.
  unfoldable pub remote_registry : Ask → Tables → Answered
  unfolding get_channel get_server create_server create_channel cleanup_stale stale_ids read_server
      read_channel read_rows read_ids write_server write_channel
  remote_registry (create_a_server name) t =
      in_state (λ r. failed r >>= λ sid. map_ok created (or_failure (codec.uuid_from_str sid)))
        (serve_create_server codec now id name t)
  remote_registry (get_a_server sid) t = (
    found_or_none (λ r. map_ok (λ s. server (some s)) (read_server codec r)) (server none)
        (serve_get_server codec now id (codec.uuid_to_string sid) t),
    t,
  )
  remote_registry (create_a_channel sid name) t =
      in_state
        (found_or_none
          (λ cid. map_ok (λ n. channel_created (some n)) (or_failure (codec.uuid_from_str cid)))
          (channel_created none))
        (serve_create_channel codec now id
          (record { server_id = codec.uuid_to_string sid; name = name }) t)
  remote_registry (get_a_channel cid) t = (
    found_or_none (λ r. map_ok (λ c. channel (some c)) (read_channel codec r)) (channel none)
        (serve_get_channel codec now id (codec.uuid_to_string cid) t),
    t,
  )
  remote_registry (get_servers page per_page) t = (
    failed (serve_get_servers codec now id page per_page t) >>= λ r.
        map_ok (λ xs. servers xs r.pages) (read_rows codec r.info),
    t,
  )
  remote_registry cleanup t =
      let (ids, t') = serve_cleanup codec now id t in (map_ok deleted (read_ids codec ids), t')
