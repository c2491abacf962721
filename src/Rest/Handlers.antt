-- ===== src/Rest/Handlers.antt =====
-- server/gateway/src/rest_api.rs: the handlers. Each asks the registry once. An answer to another
-- question than the one that was asked does not come.
use voices.Common.{ℕ, none, some, List}
use voices.VoiceServer.Requests.{Result, ok, err}
use voices.Registry.{Tables}
use voices.Registry.Query.{ServerWithChannels}
use voices.ChannelRegistry.{
  Ask, Reply, Failure, failure, Answered, create_a_server, get_a_server, create_a_channel,
  get_a_channel, get_servers, cleanup,
}
use voices.Rest.{
  Request, GetChannelResponse, Response, Handled, Lists, json, internal_server_error, not_found,
  servers_page, server_created, one_server, new_channel_id, one_channel, deleted_servers,
  into_response, clients_of, with_present, channels_with_present,
}

abbrev pub misled : Handled
misled = err (internal_server_error failure)

unfoldable pub servers : Result Reply Failure → Handled
servers (err e) = err (internal_server_error e)
servers (ok (Reply.servers xs pages)) = json 200 (servers_page xs pages)
servers (ok other) = misled

unfoldable pub new_server : Result Reply Failure → Handled
new_server (err e) = err (internal_server_error e)
new_server (ok (Reply.created id)) = json 201 (server_created id)
new_server (ok other) = misled

abbrev pub server_with : ServerWithChannels → Result (List GetChannelResponse) Failure → Handled
server_with s (ok cs) =
    json 200 (one_server (record { server_id = s.id; name = s.name; channels = cs }))
server_with s (err e) = err (internal_server_error e)

unfoldable pub get_server : Lists → Result Reply Failure → Handled
unfolding channels_with_present
get_server lists (err e) = err (internal_server_error e)
get_server lists (ok (Reply.server none)) = err not_found
get_server lists (ok (Reply.server (some s))) =
    server_with s (channels_with_present lists s.channels)
get_server lists (ok other) = misled

unfoldable pub new_channel : Result Reply Failure → Handled
new_channel (err e) = err (internal_server_error e)
new_channel (ok (Reply.channel_created none)) = err not_found
new_channel (ok (Reply.channel_created (some id))) = json 201 (new_channel_id id)
new_channel (ok other) = misled

abbrev pub channel_with : Result GetChannelResponse Failure → Handled
channel_with (ok c) = json 200 (one_channel c)
channel_with (err e) = err (internal_server_error e)

unfoldable pub get_channel : Lists → ℕ → Result Reply Failure → Handled
get_channel lists id (err e) = err (internal_server_error e)
get_channel lists id (ok (Reply.channel none)) = err not_found
get_channel lists id (ok (Reply.channel (some c))) =
    channel_with (with_present c.info (clients_of (lists id)))
get_channel lists id (ok other) = misled

unfoldable pub cleanup_stale_voice_servers : Result Reply Failure → Handled
cleanup_stale_voice_servers (err e) = err (internal_server_error e)
cleanup_stale_voice_servers (ok (Reply.deleted ids)) = json 200 (deleted_servers ids)
cleanup_stale_voice_servers (ok other) = misled

-- What a handler asks the registry.
abbrev pub question : Request → Ask
question Request.all_servers = get_servers none none
question (Request.new_server name) = create_a_server name
question (Request.get_server id) = get_a_server id
question (Request.new_channel sid name) = create_a_channel sid name
question (Request.get_channel id) = get_a_channel id
question Request.cleanup_stale_voice_servers = cleanup

unfoldable pub on_reply : Lists → Request → Result Reply Failure → Handled
unfolding servers new_server get_server new_channel get_channel cleanup_stale_voice_servers
on_reply lists Request.all_servers = servers
on_reply lists (Request.new_server name) = new_server
on_reply lists (Request.get_server id) = get_server lists
on_reply lists (Request.new_channel sid name) = new_channel
on_reply lists (Request.get_channel id) = get_channel lists id
on_reply lists Request.cleanup_stale_voice_servers = cleanup_stale_voice_servers

-- The router of server/gateway/src/lib.rs.
unfoldable pub serve : (Ask → Tables → Answered) → Lists → Request → Tables → Response × Tables
unfolding on_reply into_response
serve registry lists r t =
    let (answer, t') = registry (question r) t in (into_response (on_reply lists r answer), t')
