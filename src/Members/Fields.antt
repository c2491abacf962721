-- ===== src/Members/Fields.antt =====
-- server/gateway/src/server/channels/state/distributed.rs: what the hash in Redis holds.
use voices.Common.{
  ℕ, ◌≡◌, ◌≤◌, refl, sym, ap, ◌∙◌, Bool, true, false, Option, none, some, List, [], ◌∷◌, ◌++◌,
  lookup, lookup-insert, lookup-remove, ◌==◌, if◌then◌else◌,
}
use voices.Presence.{ClientInfo, LocallyPresent}
use voices.Presence
use voices.Members.Ledger.{writes, deletions, arrivals, departures}
use voices.Members.Announced.{run-announces}
use voices.Members.{
  Shared, Effect, joined, left, wrote, deleted, failed, rejected, closed, enter, refresh_member,
  forget_member, join_local, join_in, join, closed_if, leave_in, leave, Command, write_member,
  publish_joined, publish_left, delete_member, Outcome, answered, refused, unanswered, apply, told,
  settle, proceed_with, Step, open_room, joins, refreshes, leaves, proceeds, step, run, nobody,
}

-- The member that the writes and deletions alone make of a client.
unfoldable pub listed : ℕ → Option ClientInfo → List Effect → Option ClientInfo
listed id o [] = o
listed id o (wrote c ∷ es) = listed id (if c.client_id == id then some c else o) es
listed id o (deleted c ∷ es) = listed id (if c.client_id == id then none else o) es
listed id o (joined c ∷ es) = listed id o es
listed id o (left c ∷ es) = listed id o es
listed id o (failed call ∷ es) = listed id o es
listed id o (rejected call ∷ es) = listed id o es
listed id o (closed room ∷ es) = listed id o es

abbrev member : ℕ → Shared → Option ClientInfo
member id s = lookup id s.hash.members

listed-++ :
    (id : ℕ) (o : Option ClientInfo) (xs ys : List Effect)
    → listed id o (xs ++ ys) ≡ listed id (listed id o xs) ys
unfolding listed
listed-++ id o [] ys = refl
listed-++ id o (wrote c ∷ xs) ys = listed-++ id (if c.client_id == id then some c else o) xs ys
listed-++ id o (deleted c ∷ xs) ys = listed-++ id (if c.client_id == id then none else o) xs ys
listed-++ id o (joined c ∷ xs) ys = listed-++ id o xs ys
listed-++ id o (left c ∷ xs) ys = listed-++ id o xs ys
listed-++ id o (failed call ∷ xs) ys = listed-++ id o xs ys
listed-++ id o (rejected call ∷ xs) ys = listed-++ id o xs ys
listed-++ id o (closed room ∷ xs) ys = listed-++ id o xs ys

-- A step changes the member as its effects say.
abbrev Tells : ℕ → Option ClientInfo → Shared × List Effect → Type 0
Tells id o (s, es) = member id s ≡ listed id o es

join_local-Tells :
    (id call room : ℕ) (c : ClientInfo) (s : Shared) (x : Bool × LocallyPresent)
    → Tells id (member id s) (join_local call room c s x)
unfolding listed
join_local-Tells id call room c s (false, p) = refl
join_local-Tells id call room c s (true, p) = refl

join_in-Tells :
    (id call room : ℕ) (c : ClientInfo) (s : Shared) (o : Option LocallyPresent)
    → Tells id (member id s) (join_in call room c s o)
unfolding listed
join_in-Tells id call room c s none = refl
join_in-Tells id call room c s (some p) = join_local-Tells id call room c s (Presence.join c p)

closing-Tells :
    (id room : ℕ) (o : Option ClientInfo) (last : Bool) → listed id o (closed_if last room) ≡ o
unfolding listed
closing-Tells id room o true = refl
closing-Tells id room o false = refl

leave_in-Tells :
    (id call room : ℕ) (c : ClientInfo) (s : Shared) (o : Option LocallyPresent)
    → Tells id (member id s) (leave_in call room c s o)
unfolding listed
leave_in-Tells id call room c s none = refl
leave_in-Tells id call room c s (some p) =
    sym (closing-Tells id room (member id s) (Presence.leave c.client_id p).0)

-- A command that takes effect.
apply-Tells :
    (id now : ℕ) (x : Command) (s : Shared) (es : List Effect)
    → listed id (lookup id (apply now x s.hash).members) es ≡ listed id (member id s) (told x ∷ es)
unfolding apply told listed enter forget_member
apply-Tells id now (write_member c) s es =
    ap (λ o. listed id o es) (lookup-insert c.client_id id c s.hash.members)
apply-Tells id now (publish_joined c) s es = refl
apply-Tells id now (publish_left c) s es = refl
apply-Tells id now (delete_member c) s es =
    ap (λ o. listed id o es) (lookup-remove c.client_id id s.hash.members)

settle-Tells :
    (id call now : ℕ) (x : Command) (r : Outcome) (s : Shared)
    → Tells id (member id s) (settle call now x r s)
unfolding settle listed
settle-Tells id call now x answered s = apply-Tells id now x s []
settle-Tells id call now x refused s = refl
settle-Tells id call now x unanswered s = apply-Tells id now x s (failed call ∷ [])

proceed_with-Tells :
    (id call now : ℕ) (r : Outcome) (s : Shared) (o : Option Command)
    → Tells id (member id s) (proceed_with call now r s o)
unfolding listed
proceed_with-Tells id call now r s none = refl
proceed_with-Tells id call now r s (some x) = settle-Tells id call now x r s

step-Tells : (id : ℕ) (s : Shared) (x : Step) → Tells id (member id s) (step s x)
unfolding listed step join leave refresh_member
step-Tells id s (open_room room) = refl
step-Tells id s (joins call room c) = join_in-Tells id call room c s (lookup room s.rooms)
step-Tells id s (refreshes now j true) = refl
step-Tells id s (refreshes now j false) = refl
step-Tells id s (leaves call room c) = leave_in-Tells id call room c s (lookup room s.rooms)
step-Tells id s (proceeds call now r) = proceed_with-Tells id call now r s (lookup call s.calls)

run-Tells : (id : ℕ) (s : Shared) (xs : List Step) → Tells id (member id s) (run s xs)
unfolding run listed
run-Tells id s [] = refl
run-Tells id s (x ∷ xs) =
    run-Tells id (step s x).0 xs
    ∙ ap (λ o. listed id o (run (step s x).0 xs).1) (step-Tells id s x)
    ∙ sym (listed-++ id (member id s) (step s x).1 (run (step s x).0 xs).1)

-- However the joins and leaves of the gateways and their commands interleave, and whichever commands
-- Redis refuses or leaves unanswered: the hash of a channel lists a client just as the last write or
-- deletion of its field that took effect says. The field is deleted at most as often as it was published
-- that the client left, and it is published at most as often that it joined as its field was written.
pub run-lists :
    (id : ℕ) (xs : List Step)
    → (lookup id (run nobody xs).0.hash.members ≡ listed id none (run nobody xs).1)
      × (deletions id (run nobody xs).1 ≤ departures id (run nobody xs).1)
      × (arrivals id (run nobody xs).1 ≤ writes id (run nobody xs).1)
unfolding lookup
run-lists id xs = let (d, a) = run-announces id xs in (run-Tells id nobody xs, d, a)
