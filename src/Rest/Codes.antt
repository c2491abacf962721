-- ===== src/Rest/Codes.antt =====
-- server/gateway/src/rest_api.rs: the status codes of the gateway with the local registry.
use voices.Common.{◌∙◌, ℕ, ◌≡◌, Option, none, some, List, [], ◌∷◌, String, Map, lookup, refl, ap}
use voices.Presence.{ClientInfo, Channels, list_members, LocalChannelEvents}
use voices.VoiceServer.Requests.{ok}
use voices.Registry.{Tables, ChannelDb}
use voices.Registry.Query
use voices.Registry.Query.{ChannelInfo, server_of, create_in, channel_of}
use voices.Registry.Pages.{load_and_count_pages}
use voices.ChannelRegistry.{local_registry, created_as, server, channel}
use voices.Rest.{
  Request, GetChannelResponse, Response, local_lists, room_at, found_room, clients_of,
  channels_with_present, into_response, status_code, one_server, one_channel,
}
use voices.Rest.Handlers.{
  serve, on_reply, servers, new_server, get_server, new_channel, get_channel,
  cleanup_stale_voice_servers,
}

-- Who the gateway has in a channel.
abbrev pub members_of : Option LocalChannelEvents → List ClientInfo
members_of none = []
members_of (some l) = list_members l

abbrev pub members_in : Channels → Option ℕ → List ClientInfo
members_in c none = []
members_in c (some room) = members_of (lookup room c.rooms)

unfoldable pub present_at : Channels → ℕ → List ClientInfo
present_at c id = members_in c (lookup id c.channel_map)

abbrev pub shown : Channels → ChannelInfo → GetChannelResponse
shown c info = record { channel_id = info.id; name = info.name; present = present_at c info.id }

unfoldable pub all_shown : Channels → List ChannelInfo → List GetChannelResponse
all_shown c [] = []
all_shown c (info ∷ infos) = shown c info ∷ all_shown c infos

clients-present_at : (c : Channels) (id : ℕ) → clients_of (local_lists c id) ≡ ok (present_at c id)
unfolding local_lists present_at
clients-present_at c id = at (lookup id c.channel_map)
  where
    listed : (o : Option LocalChannelEvents) → clients_of (found_room o) ≡ ok (members_of o)
    listed none = refl
    listed (some l) = refl

    at : (o : Option ℕ) → clients_of (room_at c o) ≡ ok (members_in c o)
    at none = refl
    at (some room) = listed (lookup room c.rooms)

channels-shown :
    (c : Channels) (infos : List ChannelInfo)
    → channels_with_present (local_lists c) infos ≡ ok (all_shown c infos)
unfolding channels_with_present all_shown
channels-shown c [] = refl
channels-shown c (info ∷ infos) =
    rw (clients-present_at c info.id) (rw (channels-shown c infos) refl)

-- The response to a request for a server.
abbrev pub server_seen : Channels → ℕ → Map ChannelDb → Option String → Response
server_seen c sid m none = record { status = 404; body = none }
server_seen c sid m (some name) = record {
  status = 200;
  body = some (
      one_server (record {
        server_id = sid;
        name = name;
        channels = all_shown c (Query.get_channels sid m);
      }));
}

abbrev pub channel_seen : Channels → ℕ → Option ChannelDb → Response
channel_seen c id none = record { status = 404; body = none }
channel_seen c id (some d) = record {
  status = 200;
  body = some (one_channel (record { channel_id = id; name = d.name; present = present_at c id }));
}

-- Whether a channel can be made.
abbrev pub made : Option String → ℕ
made none = 500
made (some name) = 201

abbrev pub found : {A : Type 0} → Option A → ℕ
found none = 404
found (some a) = 200

module _ (now id : ℕ) (c : Channels) (t : Tables) where
  pub server_answer :
      (sid : ℕ)
      → (serve (local_registry now id) (local_lists c) (Request.get_server sid) t).0
        ≡ server_seen c sid t.channels (lookup sid t.servers)
  unfolding serve local_registry on_reply get_server into_response status_code Query.get_server
  server_answer sid = asked (lookup sid t.servers)
    where
      asked :
          (o : Option String)
          → into_response (get_server (local_lists c) (ok (server (server_of sid t.channels o))))
            ≡ server_seen c sid t.channels o
      asked none = refl
      asked (some name) = rw (channels-shown c (Query.get_channels sid t.channels)) refl

  pub channel_answer :
      (cid : ℕ)
      → (serve (local_registry now id) (local_lists c) (Request.get_channel cid) t).0
        ≡ channel_seen c cid (lookup cid t.channels)
  unfolding serve local_registry on_reply get_channel into_response status_code Query.get_channel
  channel_answer cid = asked (lookup cid t.channels)
    where
      asked :
          (o : Option ChannelDb)
          → into_response (get_channel (local_lists c) cid (ok (channel (channel_of now t cid o))))
            ≡ channel_seen c cid o
      asked none = refl
      asked (some d) = rw (clients-present_at c cid) refl

  servers_code :
      (serve (local_registry now id) (local_lists c) Request.all_servers t).0.status ≡ 200
  unfolding serve local_registry on_reply servers into_response load_and_count_pages
  servers_code = refl

  new_channel_code :
      (sid : ℕ) (name : String)
      → (serve (local_registry now id) (local_lists c) (Request.new_channel sid name) t).0.status
        ≡ made (lookup sid t.servers)
  unfolding serve local_registry on_reply new_channel into_response status_code Query.create_channel
  new_channel_code sid name = asked (lookup sid t.servers)
    where
      asked :
          (o : Option String)
          → (into_response (new_channel (created_as (create_in now id sid name t o)).0)).status
            ≡ made o
      asked none = refl
      asked (some s) = refl

  seen_code :
      (sid : ℕ) (m : Map ChannelDb) (o : Option String) → (server_seen c sid m o).status ≡ found o
  seen_code sid m none = refl
  seen_code sid m (some name) = refl

  channel_code : (cid : ℕ) (o : Option ChannelDb) → (channel_seen c cid o).status ≡ found o
  channel_code cid none = refl
  channel_code cid (some d) = refl

  new_server_code :
      (name : String)
      → (serve (local_registry now id) (local_lists c) (Request.new_server name) t).0.status ≡ 201
  unfolding serve local_registry on_reply new_server into_response Query.create_server
  new_server_code name = refl

  cleanup_code :
      (serve (local_registry now id) (local_lists c) Request.cleanup_stale_voice_servers t).0.status
      ≡ 200
  unfolding serve local_registry on_reply cleanup_stale_voice_servers into_response
  cleanup_code = refl

-- The status code that the tables determine.
abbrev pub code : Tables → Request → ℕ
code t Request.all_servers = 200
code t (Request.new_server name) = 201
code t (Request.get_server sid) = found (lookup sid t.servers)
code t (Request.new_channel sid name) = made (lookup sid t.servers)
code t (Request.get_channel cid) = found (lookup cid t.channels)
code t Request.cleanup_stale_voice_servers = 200

-- A gateway with the local registry and its channels in memory answers a request for a server or a
-- channel with 404 exactly when the table has none, and else with 200; a request for a new channel of
-- a server that does not exist with 500, and else with 201; a request for a new server with 201, and
-- one for the servers or for a cleanup with 200.
pub status-code :
    (now id : ℕ) (c : Channels) (t : Tables) (r : Request)
    → (serve (local_registry now id) (local_lists c) r t).0.status ≡ code t r
status-code now id c t Request.all_servers = servers_code now id c t
status-code now id c t (Request.new_server name) = new_server_code now id c t name
status-code now id c t (Request.get_server sid) =
    ap (λ r. r.status) (server_answer now id c t sid)
    ∙ seen_code now id c t sid t.channels (lookup sid t.servers)
status-code now id c t (Request.new_channel sid name) = new_channel_code now id c t sid name
status-code now id c t (Request.get_channel cid) =
    ap (λ r. r.status) (channel_answer now id c t cid)
    ∙ channel_code now id c t cid (lookup cid t.channels)
status-code now id c t Request.cleanup_stale_voice_servers = cleanup_code now id c t
