-- ===== src/Registry.antt =====
-- server/channels/core/src: the tables of servers, channels and voice servers, and the assignment of
-- channels to voice servers. A table is a map from its primary key, which is the id of a row. What a
-- query means is PostgreSQL's; where an order leaves ties, the first row in the order of ids is taken.
-- A time is compared with `now - threshold` without the subtraction, so that nothing is cut off.
pub mod Load
pub mod Assigned
pub mod Linked
pub mod Query
pub mod Pages
mod Examples
use voices.Common.{
  ℕ, suc, ◌+◌, Bool, true, false, Option, none, some, List, [], ◌∷◌, String, Map, lookup, insert,
  ltb, leb, ◌==◌, ◌&&◌, if◌then◌else◌, map,
}

pub record ChannelDb : Type 0 where
  pub server_id : ℕ
  pub assigned_to : Option ℕ
  pub name : String
  pub updated_at : ℕ

pub record VoiceServerDb : Type 0 where
  pub host_url : String
  pub last_seen : ℕ

pub record Tables : Type 0 where
  pub servers : Map String
  pub channels : Map ChannelDb
  pub voice_servers : Map VoiceServerDb

-- `Config`: 35 seconds
abbrev pub staleness : ℕ
staleness = 35000

-- `last_seen > now - threshold`
unfoldable pub is_active : ℕ → VoiceServerDb → Bool
is_active now v = ltb now (v.last_seen + staleness)

-- `last_seen < now - threshold`
unfoldable pub is_stale : ℕ → VoiceServerDb → Bool
is_stale now v = ltb (v.last_seen + staleness) now

abbrev pub seen : ℕ → String → Option VoiceServerDb → VoiceServerDb
seen now host_url none = record { host_url = host_url; last_seen = now }
seen now host_url (some v) = record v { last_seen = now }

-- `NewVoiceServer::do_create`: on a conflict only `last_seen` is set.
unfoldable pub create_or_update : ℕ → ℕ → String → Tables → Tables
create_or_update now id host_url t = record t {
  voice_servers = insert id (seen now host_url (lookup id t.voice_servers)) t.voice_servers;
}

-- `register_voice_server`: the time until which the registration holds.
unfoldable pub register_voice_server : ℕ → ℕ → String → Tables → ℕ × Tables
unfolding create_or_update
register_voice_server now id host_url t = (now + staleness, create_or_update now id host_url t)

unfoldable pub retain : ℕ → Map VoiceServerDb → Map VoiceServerDb
unfolding is_stale
retain now [] = []
retain now ((id, v) ∷ m) =
    let rest = retain now m in if is_stale now v then rest else (id, v) ∷ rest

abbrev pub is_some {ℓ} : {A : Type ℓ} → Option A → Bool
is_some none = false
is_some (some a) = true

abbrev pub is_assigned : ℕ → Option ℕ → Bool
is_assigned id none = false
is_assigned id (some v) = v == id

abbrev same_server : Option ℕ → Option ℕ → Bool
same_server none none = true
same_server none (some v) = false
same_server (some v) o = is_assigned v o

-- An update of `assigned_to`; the trigger of the table sets `updated_at` where the row changes.
unfoldable pub set_assigned_to : ℕ → Option ℕ → ChannelDb → ChannelDb
set_assigned_to now sid c =
    if same_server c.assigned_to sid then c else record c { assigned_to = sid; updated_at = now }

-- `ON DELETE SET NULL`
abbrev pub set_null : Map VoiceServerDb → Option ℕ → Option ℕ
set_null left none = none
set_null left (some id) = if is_some (lookup id left) then some id else none

unfoldable pub set_nulls : ℕ → Map VoiceServerDb → Map ChannelDb → Map ChannelDb
unfolding set_assigned_to
set_nulls now left [] = []
set_nulls now left ((id, c) ∷ m) =
    (id, set_assigned_to now (set_null left c.assigned_to) c) ∷ set_nulls now left m

-- `VoiceServerDb::do_cleanup_stale`
unfoldable pub cleanup_stale : ℕ → Tables → Tables
unfolding retain set_nulls
cleanup_stale now t =
    let left = retain now t.voice_servers in
    record t { voice_servers = left; channels = set_nulls now left t.channels }

-- `count(channels::id)` of a voice server
unfoldable pub load : ℕ → Map ChannelDb → ℕ
load id [] = 0
load id ((k, c) ∷ m) =
    let rest = load id m in if is_assigned id c.assigned_to then suc rest else rest

pub record Candidate : Type 0 where
  pub id : ℕ
  pub voice : VoiceServerDb
  pub load : ℕ

abbrev pub lesser : Candidate → Option Candidate → Option Candidate
lesser x none = some x
lesser x (some y) = if leb x.load y.load then some x else some y

-- The rows that pass the filter, in the order of their load, up to the first.
unfoldable pub smallest : ℕ → Map ChannelDb → Map VoiceServerDb → Option Candidate
unfolding is_active load
smallest now channels [] = none
smallest now channels ((id, v) ∷ m) =
    let rest = smallest now channels m in
    if is_active now v
    then lesser (record { id = id; voice = v; load = load id channels }) rest
    else rest

-- `VoiceServerDb::do_get_smallest_load`
unfoldable pub get_smallest_load : ℕ → Tables → Option Candidate
unfolding smallest
get_smallest_load now t = smallest now t.channels t.voice_servers

unfoldable pub assigned : ℕ → ℕ → Bool → ChannelDb → ChannelDb
unfolding set_assigned_to
assigned now sid reassign c =
    if is_some c.assigned_to && (if reassign then false else true)
    then c
    else set_assigned_to now (some sid) c

unfoldable pub assign_row : ℕ → ℕ → ℕ → Bool → Option ChannelDb → Tables → Tables
unfolding assigned
assign_row now cid sid reassign none t = t
assign_row now cid sid reassign (some c) t = record t {
  channels = insert cid (assigned now sid reassign c) t.channels;
}

-- `ChannelDb::do_assign_to`
unfoldable pub assign_to : ℕ → ℕ → ℕ → Bool → Tables → Tables
unfolding assign_row
assign_to now cid sid reassign t = assign_row now cid sid reassign (lookup cid t.channels) t

unfoldable pub assign_with : ℕ → ℕ → Bool → Option Candidate → Tables → Option Candidate × Tables
unfolding assign_to
assign_with now cid reassign none t = (none, t)
assign_with now cid reassign (some v) t = (some v, assign_to now cid v.id reassign t)

-- `ChannelsImpl::assign_channel`; `none` is the error that no voice server is registered. No other
-- query comes between its two queries.
unfoldable pub assign_channel : ℕ → ℕ → Bool → Tables → Option Candidate × Tables
unfolding assign_with get_smallest_load
assign_channel now cid reassign t = assign_with now cid reassign (get_smallest_load now t) t

unfoldable pub unassign_row : ℕ → ℕ → ℕ → Option ChannelDb → Tables → Tables
unfolding set_assigned_to
unassign_row now cid sid none t = t
unassign_row now cid sid (some c) t =
    if is_assigned sid c.assigned_to
    then record t { channels = insert cid (set_assigned_to now none c) t.channels }
    else t

-- `ChannelDb::unassign`
unfoldable pub unassign : ℕ → ℕ → ℕ → Tables → Tables
unfolding unassign_row
unassign now cid sid t = unassign_row now cid sid (lookup cid t.channels) t
