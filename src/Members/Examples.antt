-- ===== src/Members/Examples.antt =====
-- Tests of server/gateway/src/server/channels/state/distributed.rs.
use voices.Common.{◌≡◌, ◌≤◌, refl, none, some, List, [], ◌∷◌, lookup, insert, remove}
use voices.Presence.{ClientInfo}
use voices.Presence
use voices.Members.{
  Step, open_room, joins, leaves, proceeds, answered, refused, step, run, nobody, join, leave,
  enter, forget_member, apply, told, proceed, settle,
}
use voices.Members.Ledger.{writes, deletions, arrivals, departures}
use voices.Members.Fields.{listed, run-lists}

abbrev alice : ClientInfo
alice = record { client_id = 1; source_id = 7; name = "alice" }

abbrev moved : ClientInfo
moved = record { client_id = 1; source_id = 9; name = "alice" }

-- A client joins through one gateway and then through another. The first lets it leave meanwhile: its
-- leave is published before the second join is written, and the field is deleted after that.
abbrev moves : List Step
moves =
    open_room 0
    ∷ open_room 1
    ∷ joins 10 0 alice
    ∷ proceeds 10 100 answered
    ∷ proceeds 10 101 answered
    ∷ joins 11 1 moved
    ∷ leaves 12 0 alice
    ∷ proceeds 12 200 answered
    ∷ proceeds 11 201 answered
    ∷ proceeds 12 202 answered
    ∷ proceeds 11 203 answered
    ∷ []

run-lists_example :
    (lookup 1 (run nobody moves).0.hash.members ≡ listed 1 none (run nobody moves).1)
    × (deletions 1 (run nobody moves).1 ≤ departures 1 (run nobody moves).1)
    × (arrivals 1 (run nobody moves).1 ≤ writes 1 (run nobody moves).1)
run-lists_example = run-lists 1 moves

-- It is then in the room of the second gateway, its join was published, and it is not in the list.
unlisted : lookup 1 (run nobody moves).0.hash.members ≡ none
unfolding run step join leave enter forget_member lookup insert remove apply told proceed settle
    Presence.join Presence.leave
unlisted = refl

-- A leave whose deletion is refused.
abbrev stays : List Step
stays =
    open_room 0
    ∷ joins 10 0 alice
    ∷ proceeds 10 100 answered
    ∷ proceeds 10 101 answered
    ∷ leaves 12 0 alice
    ∷ proceeds 12 200 answered
    ∷ proceeds 12 201 refused
    ∷ []

still_listed : lookup 1 (run nobody stays).0.hash.members ≡ some alice
unfolding run step join leave enter forget_member lookup insert remove apply told proceed settle
    Presence.join Presence.leave
still_listed = refl
