-- ===== src/ChannelRegistry/Wire.antt =====
-- server/channels/grpc: the messages of the channels service (channels.v1.proto), as src/service.rs
-- writes them and server/gateway/src/channel_registry/distributed.rs reads them. A time is in
-- milliseconds, and a `Timestamp` has its seconds and the nanoseconds of the rest.
use voices.Common.{ℕ, ◌+◌, ◌*◌, ◌/◌, ◌%◌, Option, none, some, List, [], ◌∷◌, String, map}
use voices.VoiceServer.Requests.{Result, ok, err}
use voices.Registry.Query.{ServerWithChannels, Channel}
use voices.Registry.Query
use voices.Grpc.{Codec, Text, ◌>>=◌}
use voices.ChannelRegistry.{Server, Failure, failure}

pub record Timestamp : Type 0 where
  pub seconds : ℕ
  pub nanos : ℕ

pub record ChannelInfo : Type 0 where
  pub channel_id : Text
  pub name : String

pub record ServerInfo : Type 0 where
  pub server_id : Text
  pub name : String

pub record GetServersResponse : Type 0 where
  pub info : List ServerInfo
  pub pages : ℕ

pub record GetServerResponse : Type 0 where
  pub server_id : Text
  pub name : String
  pub channels : List ChannelInfo

pub record CreateChannelRequest : Type 0 where
  pub server_id : Text
  pub name : String

pub record GetChannelResponse : Type 0 where
  pub channel_id : Text
  pub name : String
  pub voice_server_host : Option String
  pub server_id : Text
  pub updated_at : Option Timestamp

abbrev pub write_time : ℕ → Timestamp
write_time ms = record { seconds = ms / 1000; nanos = ms % 1000 * 1000000 }

-- `from_timestamp_opt` takes what is less than two seconds of nanoseconds.
unfoldable pub read_time : Timestamp → ℕ
read_time t = t.seconds * 1000 + t.nanos / 1000000

abbrev pub or_failure : {A : Type 0} → Option A → Result A Failure
or_failure (some a) = ok a
or_failure none = err failure

module _ (codec : Codec) where
  abbrev pub write_info : Query.ChannelInfo → ChannelInfo
  write_info c = record { channel_id = codec.uuid_to_string c.id; name = c.name }

  -- `From<ServerWithChannels>`
  unfoldable pub write_server : ServerWithChannels → GetServerResponse
  write_server s = record {
    server_id = codec.uuid_to_string s.id;
    name = s.name;
    channels = map write_info s.channels;
  }

  -- `From<Channel>`
  unfoldable pub write_channel : Channel → GetChannelResponse
  write_channel c = record {
    channel_id = codec.uuid_to_string c.info.id;
    name = c.info.name;
    voice_server_host = c.assigned_to;
    server_id = codec.uuid_to_string c.server_id;
    updated_at = some (write_time c.updated_at);
  }

  -- `From<Server>`
  abbrev pub write_row : Server → ServerInfo
  write_row s = record { server_id = codec.uuid_to_string s.id; name = s.name }

  abbrev pub write_page : List Server × ℕ → GetServersResponse
  write_page r = record { info = map write_row r.0; pages = r.1 }

  -- `TryFrom<ChannelInfo>`, of each channel of a server
  unfoldable pub read_infos : List ChannelInfo → Result (List Query.ChannelInfo) Failure
  read_infos [] = ok []
  read_infos (c ∷ cs) = or_failure (codec.uuid_from_str c.channel_id) >>= λ id.
      read_infos cs >>= λ rest. ok (record { id = id; name = c.name } ∷ rest)

  -- `TryFrom<GetServerResponse>`
  unfoldable pub read_server : GetServerResponse → Result ServerWithChannels Failure
  unfolding read_infos
  read_server r = or_failure (codec.uuid_from_str r.server_id) >>= λ id.
      read_infos r.channels >>= λ cs. ok (record { id = id; name = r.name; channels = cs })

  -- `TryFrom<GetChannelResponse>`
  unfoldable pub read_channel : GetChannelResponse → Result Channel Failure
  unfolding read_time
  read_channel r = or_failure r.updated_at >>= λ time.
      or_failure (codec.uuid_from_str r.channel_id) >>= λ id.
      or_failure (codec.uuid_from_str r.server_id) >>= λ sid. ok (record {
        info = record { id = id; name = r.name };
        server_id = sid;
        assigned_to = r.voice_server_host;
        updated_at = read_time time;
      })

  unfoldable pub read_rows : List ServerInfo → Result (List Server) Failure
  read_rows [] = ok []
  read_rows (v ∷ vs) = or_failure (codec.uuid_from_str v.server_id) >>= λ id.
      read_rows vs >>= λ rest. ok (record { id = id; name = v.name } ∷ rest)

  unfoldable pub read_ids : List Text → Result (List ℕ) Failure
  read_ids [] = ok []
  read_ids (v ∷ vs) =
      or_failure (codec.uuid_from_str v) >>= λ id. read_ids vs >>= λ rest. ok (id ∷ rest)
