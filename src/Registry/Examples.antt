-- ===== src/Registry/Examples.antt =====
-- The tables of server/channels/core/src with two voice servers and two channels.
use voices.Common.{
  length, if◌then◌else◌, ◌%◌, arith, ◌≡◌, Bool-cases, inl, inr, ◌==◌, List, ℕ, refl, false, some,
  none, [], ◌∷◌, lookup, Option,
}
use voices.Registry.Pages.{all_pages, load_and_count_pages, pages_from, query, offset, limit}
use voices.Registry.Pages.Paging.{length-all_pages}
use voices.Registry.{ChannelDb, Tables, assign_channel, get_smallest_load}
use voices.Registry.Load.{IsSmallest, get_smallest_load-IsSmallest}
use voices.Registry.Linked.{IsLinked, Op, register, clean, assign, release, run, run-IsLinked}
use voices.Registry.Assigned.{IsPlaced, assign_channel-IsPlaced}

abbrev channel_at : Option ℕ → ChannelDb
channel_at sid = record { server_id = 1; assigned_to = sid; name = "talk"; updated_at = 0 }

abbrev tables : Tables
tables = record {
  servers = (1, "home") ∷ [];
  channels = (4, channel_at (some 7)) ∷ (5, channel_at none) ∷ [];
  voice_servers =
      (7, record { host_url = "http://a"; last_seen = 1000 })
      ∷ (8, record { host_url = "http://b"; last_seen = 1000 })
      ∷ [];
}

get_smallest_load-IsSmallest_example :
    IsSmallest 2000 tables.channels tables.voice_servers (get_smallest_load 2000 tables)
get_smallest_load-IsSmallest_example = get_smallest_load-IsSmallest 2000 tables

assign_channel-IsPlaced_example :
    IsSmallest 2000 tables.channels tables.voice_servers (assign_channel 2000 4 false tables).0
    × IsPlaced 4 false tables (channel_at (some 7)) (assign_channel 2000 4 false tables)
unfolding lookup
assign_channel-IsPlaced_example =
    assign_channel-IsPlaced 2000 4 false tables (channel_at (some 7)) refl

abbrev fresh_tables : Tables
fresh_tables = record {
  servers = (1, "home") ∷ [];
  channels = (4, channel_at none) ∷ [];
  voice_servers = [];
}

fresh_tables-IsLinked : IsLinked fresh_tables
unfolding lookup
fresh_tables-IsLinked k c v e f = elim (Bool-cases (4 == k)) [
  | inl b ↦ cc (rw (b) at e, f)
  | inr b ↦ cc (rw (b) at e)
]

abbrev history : List (ℕ × Op)
history =
    (1000, register 7 "http://a")
    ∷ (2000, assign 4 false)
    ∷ (90000, clean)
    ∷ (91000, release 4 7)
    ∷ []

run-IsLinked_example : IsLinked (run fresh_tables history)
run-IsLinked_example = run-IsLinked fresh_tables history fresh_tables-IsLinked

-- Seven rows, which every other query gives in the opposite order.
abbrev seven_rows : ℕ → List ℕ
seven_rows page =
    if page % 2 == 0 then 7 ∷ 6 ∷ 5 ∷ 4 ∷ 3 ∷ 2 ∷ 1 ∷ [] else 1 ∷ 2 ∷ 3 ∷ 4 ∷ 5 ∷ 6 ∷ 7 ∷ []

seven_given : (page : ℕ) → length (seven_rows page) ≡ 7
seven_given page = elim (Bool-cases (page % 2 == 0)) [ inl e ↦ rw (e) refl | inr e ↦ rw (e) refl ]

length-all_pages_example :
    (length (all_pages 3 seven_rows) ≡ 7) × (load_and_count_pages 4 3 (seven_rows 4) ≡ some ([], 0))
length-all_pages_example = length-all_pages 3 3 7 seven_rows (omega arith) seven_given (omega arith)

-- Some rows come twice then, and others not at all.
some_missing : all_pages 3 seven_rows ≡ 1 ∷ 2 ∷ 3 ∷ 4 ∷ 3 ∷ 2 ∷ 7 ∷ []
unfolding all_pages pages_from load_and_count_pages query offset limit
some_missing = refl
