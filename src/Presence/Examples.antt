-- ===== src/Presence/Examples.antt =====
-- The channels of server/gateway/src/server/channels with two members, one of whom leaves.
use voices.Common.{
  false, true, ℕ, ◌≡◌, ◌≢◌, ap, inl, inr, insert_cases, refl, arith, some, List, [], ◌∷◌, lookup,
  insert, remove,
}
use voices.Presence.{
  ClientInfo, Op, init, join_at, drop, leave_after, run, none_yet, step, ChatRoomJoined,
}
use voices.Presence.Rooms
use voices.Presence.Rooms.{
  Table, host, no_host, got, init_it, reassign_it, close_it, last_voice, find_channel, init_channel,
  reassign_voice, run-gives,
}
use voices.Presence.Handles.{IsPresent, AllAllowed}
use voices.Presence.Drops.{run-IsPresent}

abbrev alice : ClientInfo
alice = record { client_id = 1; source_id = 7; name = "alice" }

abbrev bob : ClientInfo
bob = record { client_id = 2; source_id = 5; name = "bob" }

abbrev history : List Op
history = init 4 ∷ join_at 0 0 alice ∷ join_at 1 0 bob ∷ drop 0 ∷ leave_after 0 ∷ []

only_alice :
    (i : ℕ) (h : ChatRoomJoined)
    → lookup i ((0, record { room = 0; info = alice }) ∷ []) ≡ some h
    → h.info.client_id ≢ 2
unfolding insert lookup
only_alice i h e = elim (insert_cases 0 i [] (record { room = 0; info = alice }) h e) [
  | inl (at, same) ↦ λ y. omega (arith, ap (λ x. x.info.client_id) same, y)
  | inr (ne, f) ↦ cc f
]

history-AllAllowed : AllAllowed none_yet history
unfolding step lookup insert remove
history-AllAllowed = (
  tt,
  (
    record { unused = refl; alone = λ i h e f. cc e },
    (record { unused = refl; alone = λ i h e f. only_alice i h e }, (tt, (tt, tt))),
  ),
)

run-IsPresent_example :
    (p : IsPresent (run none_yet history) (record { room = 0; info = bob })) × (lookup
        p.room.channel_id
        (run none_yet history).channel_map
      ≡ some 0)
unfolding run step lookup insert remove
run-IsPresent_example =
    run-IsPresent history history-AllAllowed 1 (record { room = 0; info = bob }) refl

-- A channel that two sessions open at once, and that is reassigned.
abbrev lobby : Table
lobby = record { channels = (4, record { state = 0; voice = 2 }) ∷ []; states = 1 }

abbrev rivals : List Rooms.Op
rivals =
    init_it 4 (host 3 true)
    ∷ init_it 5 (host 2 true)
    ∷ reassign_it 4 (host 6 false)
    ∷ reassign_it 4 no_host
    ∷ close_it 5
    ∷ []

run-gives_example :
    (find_channel 4 (Rooms.run lobby rivals)
      ≡ some (got (record { state = 0; voice = last_voice 4 2 rivals })))
    × ((init_channel 4 (host 9 true) (Rooms.run lobby rivals)).0
        ≡ got (record { state = 0; voice = last_voice 4 2 rivals }))
    × ((reassign_voice 4 (host 9 true) (Rooms.run lobby rivals)).0
        ≡ got (record { state = 0; voice = 9 }))
unfolding lookup
run-gives_example =
    run-gives 4 0 2 9 true lobby rivals refl (tt, (tt, (tt, (tt, ((λ e. omega (arith, e)), tt)))))
