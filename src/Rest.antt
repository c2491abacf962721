-- ===== src/Rest.antt =====
-- server/gateway/src/rest_api.rs: the REST interface of the gateway to the registry of servers and
-- channels, and client/src/channels_api.rs, which asks it.
pub mod Handlers
pub mod Fetch
pub mod Codes
pub mod Seen
mod Examples
use voices.Common.{
  ℕ, Bool, true, false, Option, none, some, List, [], ◌∷◌, String, Map, lookup, map,
}
use voices.Presence.{ClientInfo, Channels, LocalChannelEvents, list_members}
use voices.VoiceServer.Requests.{Result, ok, err}
use voices.Registry.{Tables}
use voices.Registry.Query.{ServerWithChannels, Channel, ChannelInfo}
use voices.ChannelRegistry.{
  Server, Ask, Reply, Failure, failure, Answered, create_a_server, get_a_server, create_a_channel,
  get_a_channel, get_servers, cleanup, created, server, channel_created, channel, servers, deleted,
}

-- The request bodies and paths of the router in server/gateway/src/lib.rs.
pub data Request : Type 0 where
  all_servers : Request
  new_server : String → Request
  get_server : ℕ → Request
  new_channel : ℕ → String → Request
  get_channel : ℕ → Request
  cleanup_stale_voice_servers : Request

pub record GetChannelResponse : Type 0 where
  pub channel_id : ℕ
  pub name : String
  pub present : List ClientInfo

pub record GetServerResponse : Type 0 where
  pub server_id : ℕ
  pub name : String
  pub channels : List GetChannelResponse

pub data Body : Type 0 where
  servers_page : List Server → ℕ → Body
  server_created : ℕ → Body
  one_server : GetServerResponse → Body
  new_channel_id : ℕ → Body
  one_channel : GetChannelResponse → Body
  deleted_servers : List ℕ → Body
  message : String → Body

pub data ApiError : Type 0 where
  internal_server_error : Failure → ApiError
  not_found : ApiError
  with_body : String → ApiError → ApiError

pub record Response : Type 0 where
  pub status : ℕ
  pub body : Option Body

abbrev pub Handled : Type 0
Handled = Result Response ApiError

-- `ApiError::status_code`
unfoldable pub status_code : ApiError → ℕ
status_code (internal_server_error e) = 500
status_code not_found = 404
status_code (with_body m source) = status_code source

-- `IntoResponse for ApiError`, and of a handler that succeeds.
unfoldable pub into_response : Handled → Response
unfolding status_code
into_response (ok r) = r
into_response (err (with_body m source)) = record {
  status = status_code source;
  body = some (message m);
}
into_response (err e) = record { status = status_code e; body = none }

abbrev pub json : ℕ → Body → Handled
json code b = ok (record { status = code; body = some b })

-- What a channel of this gateway's table answers to `list_members`; none if the table does not have it.
abbrev pub Lists : Type 0
Lists = ℕ → Option (Result (List ClientInfo) Failure)

-- The lists of `LocalChannelEvents`, which do not fail.
abbrev pub found_room : Option LocalChannelEvents → Option (Result (List ClientInfo) Failure)
found_room none = none
found_room (some l) = some (ok (list_members l))

abbrev pub room_at : Channels → Option ℕ → Option (Result (List ClientInfo) Failure)
room_at c none = none
room_at c (some room) = found_room (lookup room c.rooms)

unfoldable pub local_lists : Channels → Lists
local_lists c id = room_at c (lookup id c.channel_map)

abbrev pub clients_of : Option (Result (List ClientInfo) Failure) → Result (List ClientInfo) Failure
clients_of none = ok []
clients_of (some r) = r

abbrev pub with_present :
    ChannelInfo → Result (List ClientInfo) Failure → Result GetChannelResponse Failure
with_present c (ok clients) = ok (record { channel_id = c.id; name = c.name; present = clients })
with_present c (err e) = err e

abbrev pub and_channels :
    Result GetChannelResponse Failure
    → Result (List GetChannelResponse) Failure
    → Result (List GetChannelResponse) Failure
and_channels (err e) rest = err e
and_channels (ok c) (err e) = err e
and_channels (ok c) (ok cs) = ok (c ∷ cs)

-- The loop of `get_server` over its channels.
unfoldable pub channels_with_present :
    Lists → List ChannelInfo → Result (List GetChannelResponse) Failure
channels_with_present lists [] = ok []
channels_with_present lists (c ∷ cs) =
    and_channels (with_present c (clients_of (lists c.id))) (channels_with_present lists cs)

abbrev pub server_with : ServerWithChannels → Result (List GetChannelResponse) Failure → Handled
server_with s (ok cs) =
    json 200 (one_server (record { server_id = s.id; name = s.name; channels = cs }))
server_with s (err e) = err (internal_server_error e)

abbrev pub channel_with : Result GetChannelResponse Failure → Handled
channel_with (ok c) = json 200 (one_channel c)
channel_with (err e) = err (internal_server_error e)
