-- ===== src/Members/Announced.antt =====
-- server/gateway/src/server/channels/state/distributed.rs: the order of the two commands of a call.
use voices.Common.{
  ℕ, ◌+◌, ◌≤◌, ◌≡◌, refl, ap, Bool, true, false, Option, none, some, List, [], ◌∷◌, lookup, insert,
  remove, arith,
}
use voices.Presence.{ClientInfo, LocallyPresent}
use voices.Presence
use voices.Members.Ledger.{
  count, count-++, write_of, deletion_of, arrival_of, departure_of, writes, deletions, arrivals,
  departures, to_publish, to_delete, total, total-remove, total-insert,
}
use voices.Members.{
  write_member, publish_joined, publish_left, delete_member, Command, Shared, Outcome, answered,
  refused, unanswered, Effect, wrote, deleted, joined, left, failed, closed, join_local, join_in,
  join, closed_if, leave_hash, leave_in, leave, told, proceed, settle, proceed_with, Step,
  open_room, joins, refreshes, leaves, proceeds, step, run, nobody,
}

-- A step adds no deletion without a departure, and no arrival without a write, counting what waits.
abbrev Keeps : ℕ → Shared → Shared × List Effect → Type 0
Keeps id s (s', out) =
    (deletions id out + total (to_delete id) s'.calls
      ≤ departures id out + total (to_delete id) s.calls)
    × (arrivals id out + total (to_publish id) s'.calls
        ≤ writes id out + total (to_publish id) s.calls)

module _ (id : ℕ) where
  insert-Keeps :
      (call : ℕ) (x : Command) (s s' : Shared) (out : List Effect)
      → s'.calls ≡ insert call x s.calls
      → deletions id out + to_delete id x ≤ departures id out
      → arrivals id out + to_publish id x ≤ writes id out
      → Keeps id s (s', out)
  insert-Keeps call x s s' out e d a = (
    omega (arith, ap (total (to_delete id)) e, total-insert (to_delete id) call x s.calls),
    omega (arith, ap (total (to_publish id)) e, total-insert (to_publish id) call x s.calls),
  )

  remove-Keeps :
      (call : ℕ) (x : Command) (s s' : Shared) (out : List Effect)
      → lookup call s.calls ≡ some x
      → s'.calls ≡ remove call s.calls
      → deletions id out ≤ departures id out + to_delete id x
      → arrivals id out ≤ writes id out + to_publish id x
      → Keeps id s (s', out)
  remove-Keeps call x s s' out at e d a = (
    omega (arith, ap (total (to_delete id)) e, total-remove (to_delete id) call x s.calls at),
    omega (arith, ap (total (to_publish id)) e, total-remove (to_publish id) call x s.calls at),
  )

  join_in-Keeps :
      (call room : ℕ) (c : ClientInfo) (s : Shared) (o : Option LocallyPresent)
      → Keeps id s (join_in call room c s o)
  unfolding count
  join_in-Keeps call room c s none = (omega arith, omega arith)
  join_in-Keeps call room c s (some p) = local (Presence.join c p)
    where
      local : (x : Bool × LocallyPresent) → Keeps id s (join_local call room c s x)
      local (false, p) = (omega arith, omega arith)
      local (true, p) =
          insert-Keeps call (write_member c) s
            (record s {
              rooms = insert room p s.rooms;
              calls = insert call (write_member c) s.calls;
            })
            [] refl (omega arith) (omega arith)

  leave_in-Keeps :
      (call room : ℕ) (c : ClientInfo) (s : Shared) (o : Option LocallyPresent)
      → Keeps id s (leave_in call room c s o)
  unfolding count
  leave_in-Keeps call room c s none =
      insert-Keeps call (publish_left c) s (leave_hash call c s) [] refl (omega arith) (omega arith)
  leave_in-Keeps call room c s (some p) = last-Keeps (Presence.leave c.client_id p)
    where
      last-Keeps :
          (x : Bool × LocallyPresent)
          → Keeps id s
              (leave_hash call c (record s { rooms = insert room x.1 s.rooms }), closed_if x.0 room)
      last-Keeps (false, p') =
          insert-Keeps call (publish_left c) s
            (leave_hash call c (record s { rooms = insert room p' s.rooms })) [] refl (omega arith)
            (omega arith)
      last-Keeps (true, p') =
          insert-Keeps call (publish_left c) s
            (leave_hash call c (record s { rooms = insert room p' s.rooms })) (closed room ∷ [])
            refl (omega arith) (omega arith)

  settle-Keeps :
      (call now : ℕ) (x : Command) (r : Outcome) (s : Shared)
      → lookup call s.calls ≡ some x
      → Keeps id s (settle call now x r s)
  unfolding settle told proceed count
  settle-Keeps call now (write_member c) answered s at =
      insert-Keeps call (publish_joined c) s (settle call now (write_member c) answered s).0
        (wrote c ∷ []) refl (omega arith) (omega arith)
  settle-Keeps call now (publish_left c) answered s at =
      insert-Keeps call (delete_member c) s (settle call now (publish_left c) answered s).0
        (left c ∷ []) refl (omega arith) (omega arith)
  settle-Keeps call now (publish_joined c) answered s at =
      remove-Keeps call (publish_joined c) s (settle call now (publish_joined c) answered s).0
        (joined c ∷ []) at refl (omega arith) (omega arith)
  settle-Keeps call now (delete_member c) answered s at =
      remove-Keeps call (delete_member c) s (settle call now (delete_member c) answered s).0
        (deleted c ∷ []) at refl (omega arith) (omega arith)
  settle-Keeps call now x refused s at =
      remove-Keeps call x s (settle call now x refused s).0 (failed call ∷ []) at refl (omega arith)
        (omega arith)
  settle-Keeps call now (write_member c) unanswered s at =
      remove-Keeps call (write_member c) s (settle call now (write_member c) unanswered s).0
        (wrote c ∷ failed call ∷ []) at refl (omega arith) (omega arith)
  settle-Keeps call now (publish_left c) unanswered s at =
      remove-Keeps call (publish_left c) s (settle call now (publish_left c) unanswered s).0
        (left c ∷ failed call ∷ []) at refl (omega arith) (omega arith)
  settle-Keeps call now (publish_joined c) unanswered s at =
      remove-Keeps call (publish_joined c) s (settle call now (publish_joined c) unanswered s).0
        (joined c ∷ failed call ∷ []) at refl (omega arith) (omega arith)
  settle-Keeps call now (delete_member c) unanswered s at =
      remove-Keeps call (delete_member c) s (settle call now (delete_member c) unanswered s).0
        (deleted c ∷ failed call ∷ []) at refl (omega arith) (omega arith)

  proceed_with-Keeps :
      (call now : ℕ) (r : Outcome) (s : Shared) (o : Option Command)
      → lookup call s.calls ≡ o
      → Keeps id s (proceed_with call now r s o)
  unfolding count
  proceed_with-Keeps call now r s none e = (omega arith, omega arith)
  proceed_with-Keeps call now r s (some x) e = settle-Keeps call now x r s e

  step-Keeps : (s : Shared) (x : Step) → Keeps id s (step s x)
  unfolding step join leave count
  step-Keeps s (open_room room) = (omega arith, omega arith)
  step-Keeps s (joins call room c) = join_in-Keeps call room c s (lookup room s.rooms)
  step-Keeps s (refreshes now j true) = (omega arith, omega arith)
  step-Keeps s (refreshes now j false) = (omega arith, omega arith)
  step-Keeps s (leaves call room c) = leave_in-Keeps call room c s (lookup room s.rooms)
  step-Keeps s (proceeds call now r) = proceed_with-Keeps call now r s (lookup call s.calls) refl

run-Keeps : (id : ℕ) (s : Shared) (xs : List Step) → Keeps id s (run s xs)
unfolding run count
run-Keeps id s [] = (omega arith, omega arith)
run-Keeps id s (x ∷ xs) =
    let out : List Effect = (step s x).1 in
    let outs : List Effect = (run (step s x).0 xs).1 in
    let (d, a) = step-Keeps id s x in
    let (ds, as') = run-Keeps id (step s x).0 xs in
    (
      omega (arith, d, ds, count-++ (deletion_of id) out outs, count-++ (departure_of id) out outs),
      omega (arith, a, as', count-++ (arrival_of id) out outs, count-++ (write_of id) out outs),
    )

-- No field of a client is deleted without its leave having been published, and its join is not
-- published without its field having been written.
pub run-announces :
    (id : ℕ) (xs : List Step)
    → (deletions id (run nobody xs).1 ≤ departures id (run nobody xs).1)
      × (arrivals id (run nobody xs).1 ≤ writes id (run nobody xs).1)
unfolding total
run-announces id xs = let (d, a) = run-Keeps id nobody xs in (omega (arith, d), omega (arith, a))
