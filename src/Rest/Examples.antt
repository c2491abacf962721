-- ===== src/Rest/Examples.antt =====
-- A gateway whose one channel has one client.
use voices.Common.{◌≡◌, refl, true, some, none, List, [], ◌∷◌, lookup, insert}
use voices.Presence.{ClientInfo, Op, init, join_at, run, none_yet, step}
use voices.Presence.Handles.{AllAllowed}
use voices.Registry.{Tables, ChannelDb}
use voices.ChannelRegistry.{local_registry}
use voices.Rest.{Request, GetChannelResponse, local_lists, one_server}
use voices.Rest.Handlers.{serve}
use voices.Rest.Codes.{status-code, code}
use voices.Rest.Fetch.{fetch, parsed}
use voices.Rest.Seen.{Shows, fetch-Shows}

abbrev alice : ClientInfo
alice = record { client_id = 1; source_id = 7; name = "alice" }

abbrev history : List Op
history = init 4 ∷ join_at 0 0 alice ∷ []

history-AllAllowed : AllAllowed none_yet history
unfolding step lookup insert
history-AllAllowed = (tt, (record { unused = refl; alone = λ i h e f. cc e }, tt))

abbrev lobby : ChannelDb
lobby = record { server_id = 3; assigned_to = none; name = "lobby"; updated_at = 0 }

abbrev tables : Tables
tables = record { servers = (3, "home") ∷ []; channels = (4, lobby) ∷ []; voice_servers = [] }

fetch-Shows_example :
    (cs : List GetChannelResponse) × (fetch
        (λ b. b)
        true
        (some
          (serve
            (local_registry 9 8)
            (local_lists (run none_yet history))
            (Request.get_server 3)
            tables).0)
      ≡ parsed (some (one_server (record { server_id = 3; name = "home"; channels = cs }))))
    × Shows 4 alice cs
unfolding run step lookup insert
fetch-Shows_example =
    fetch-Shows (λ b. b) history 0 (record { room = 0; info = alice }) 9 8 4 3 "home" lobby tables
      history-AllAllowed refl refl refl refl refl

status-code_example :
    (serve
      (local_registry 9 8)
      (local_lists none_yet)
      (Request.new_channel 5 "attic")
      tables).0.status
    ≡ code tables (Request.new_channel 5 "attic")
status-code_example = status-code 9 8 none_yet tables (Request.new_channel 5 "attic")
