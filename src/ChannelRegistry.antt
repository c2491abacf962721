-- ===== src/ChannelRegistry.antt =====
-- server/gateway/src/channel_registry: the registry of servers and channels that a gateway asks. The
-- local one (integrated.rs) calls `ChannelsImpl` in its own process.
pub mod Wire
pub mod Remote
pub mod Same
mod Examples
use voices.Common.{
  ℕ, Bool, true, false, Option, none, some, List, [], ◌∷◌, String, Map, if◌then◌else◌,
}
use voices.VoiceServer.Requests.{Result, ok, err}
use voices.Registry.{Tables, VoiceServerDb, is_stale, cleanup_stale}
use voices.Registry.Query.{
  ServerWithChannels, Channel, get_channel, get_server, create_server, create_channel,
}
use voices.Registry.Pages.{load_and_count_pages}

-- server/channels/models/src/lib.rs
pub record Server : Type 0 where
  pub id : ℕ
  pub name : String

-- The trait `ChannelRegistry`, as one type of requests and one of answers.
pub data Ask : Type 0 where
  create_a_server : String → Ask
  get_a_server : ℕ → Ask
  create_a_channel : ℕ → String → Ask
  get_a_channel : ℕ → Ask
  get_servers : Option ℕ → Option ℕ → Ask
  cleanup : Ask

pub data Reply : Type 0 where
  created : ℕ → Reply
  server : Option ServerWithChannels → Reply
  channel_created : Option ℕ → Reply
  channel : Option Channel → Reply
  servers : List Server → ℕ → Reply
  deleted : List ℕ → Reply

-- An `anyhow::Error`, without what it says.
pub data Failure : Type 0 where
  failure : Failure

abbrev pub Answered : Type 0
Answered = Result Reply Failure × Tables

-- The ids that `cleanup_stale` returns.
unfoldable pub stale_ids : ℕ → Map VoiceServerDb → List ℕ
unfolding is_stale
stale_ids now [] = []
stale_ids now ((id, v) ∷ m) =
    let rest = stale_ids now m in if is_stale now v then id ∷ rest else rest

abbrev pub server_rows : Map String → List Server
server_rows [] = []
server_rows ((id, name) ∷ m) = record { id = id; name = name } ∷ server_rows m

-- `ChannelsImpl::get_servers`, for a query that takes the rows in the order of the table.
abbrev pub servers_page : ℕ → ℕ → Tables → Option (List Server × ℕ)
servers_page page per_page t = load_and_count_pages page per_page (server_rows t.servers)

abbrev pub unwrap_or : ℕ → Option ℕ → ℕ
unwrap_or d none = d
unwrap_or d (some n) = n

abbrev pub page_as : Option (List Server × ℕ) → Result Reply Failure
page_as none = err failure
page_as (some (xs, pages)) = ok (servers xs pages)

abbrev pub created_as : Option ℕ × Tables → Answered
created_as (none, t) = (err failure, t)
created_as (some id, t) = (ok (channel_created (some id)), t)

-- `LocalChannelRegistry`; `id` is the one that the database gives to a new row.
unfoldable pub local_registry : ℕ → ℕ → Ask → Tables → Answered
unfolding get_channel get_server create_server create_channel load_and_count_pages cleanup_stale
    stale_ids
local_registry now id (create_a_server name) t =
    let (sid, t') = create_server id name t in (ok (created sid), t')
local_registry now id (get_a_server sid) t = (ok (server (get_server sid t)), t)
local_registry now id (create_a_channel sid name) t = created_as (create_channel now id sid name t)
local_registry now id (get_a_channel cid) t = (ok (channel (get_channel now cid t)), t)
local_registry now id (get_servers page per_page) t =
    (page_as (servers_page (unwrap_or 1 page) (unwrap_or 100 per_page) t), t)
local_registry now id cleanup t =
    (ok (deleted (stale_ids now t.voice_servers)), cleanup_stale now t)
