-- ===== src/Registry/Query.antt =====
-- server/channels/core/src: the operations of `ChannelsImpl` on servers and channels. The id of a new
-- row is the database's choice.
use voices.Common.{
  ℕ, Option, none, some, List, [], ◌∷◌, String, Map, lookup, insert, ◌==◌, if◌then◌else◌,
}
use voices.Registry.{ChannelDb, VoiceServerDb, Tables, is_active}

-- server/channels/models/src/lib.rs
pub record ChannelInfo : Type 0 where
  pub id : ℕ
  pub name : String

pub record ServerWithChannels : Type 0 where
  pub id : ℕ
  pub name : String
  pub channels : List ChannelInfo

pub record Channel : Type 0 where
  pub info : ChannelInfo
  pub server_id : ℕ
  pub assigned_to : Option String
  pub updated_at : ℕ

abbrev pub if_active : ℕ → Option VoiceServerDb → Option VoiceServerDb
if_active now none = none
if_active now (some v) = if is_active now v then some v else none

-- `VoiceServerDb::get_active`
unfoldable pub get_active : ℕ → ℕ → Tables → Option VoiceServerDb
unfolding is_active
get_active now id t = if_active now (lookup id t.voice_servers)

abbrev pub host_url_of : Option VoiceServerDb → Option String
host_url_of none = none
host_url_of (some v) = some v.host_url

abbrev pub host_of : ℕ → Tables → Option ℕ → Option String
host_of now t none = none
host_of now t (some id) = host_url_of (get_active now id t)

abbrev pub channel_of : ℕ → Tables → ℕ → Option ChannelDb → Option Channel
channel_of now t id none = none
channel_of now t id (some c) = some (record {
  info = record { id = id; name = c.name };
  server_id = c.server_id;
  assigned_to = host_of now t c.assigned_to;
  updated_at = c.updated_at;
})

-- `ChannelsImpl::get_channel`
unfoldable pub get_channel : ℕ → ℕ → Tables → Option Channel
unfolding get_active
get_channel now id t = channel_of now t id (lookup id t.channels)

-- `ServerDb::get_channels`
unfoldable pub get_channels : ℕ → Map ChannelDb → List ChannelInfo
get_channels sid [] = []
get_channels sid ((id, c) ∷ m) =
    let rest = get_channels sid m in
    if c.server_id == sid then record { id = id; name = c.name } ∷ rest else rest

abbrev pub server_of : ℕ → Map ChannelDb → Option String → Option ServerWithChannels
server_of sid channels none = none
server_of sid channels (some name) =
    some (record { id = sid; name = name; channels = get_channels sid channels })

-- `ChannelsImpl::get_server`
unfoldable pub get_server : ℕ → Tables → Option ServerWithChannels
unfolding get_channels
get_server sid t = server_of sid t.channels (lookup sid t.servers)

-- `ChannelsImpl::create_server`
unfoldable pub create_server : ℕ → String → Tables → ℕ × Tables
create_server id name t = (id, record t { servers = insert id name t.servers })

abbrev pub create_in : ℕ → ℕ → ℕ → String → Tables → Option String → Option ℕ × Tables
create_in now id sid name t none = (none, t)
create_in now id sid name t (some server) = (
  some id,
  record t {
    channels =
        insert id (record { server_id = sid; assigned_to = none; name = name; updated_at = now })
          t.channels;
  },
)

-- `ChannelsImpl::create_channel`; a server that does not exist is an error of the database.
unfoldable pub create_channel : ℕ → ℕ → ℕ → String → Tables → Option ℕ × Tables
create_channel now id sid name t = create_in now id sid name t (lookup sid t.servers)
