-- ===== src/Members.antt =====
-- server/gateway/src/server/channels/state/distributed.rs: the members of one channel over all gateways,
-- which Redis keeps in one hash. A field of the hash is the id of a client or `last_seen:` and an id; the
-- two kinds are two maps here. Each gateway that has the channel has a room with its own
-- `LocallyPresent`. A call of `join` or `leave` gives Redis two commands one after the other; the commands
-- of different calls come in any order, and what Redis makes of each is an input.
pub mod Ledger
pub mod Announced
pub mod Fields
mod Examples
use voices.Common.{
  ℕ, Bool, true, false, Option, none, some, List, [], ◌∷◌, ◌++◌, Map, lookup, insert, remove,
  values,
}
use voices.Presence.{ClientInfo, LocallyPresent, empty}
use voices.Presence

-- The hash of the channel.
pub record Hash : Type 0 where
  pub members : Map ClientInfo
  pub last_seen : Map ℕ

-- What a call gives to Redis next.
pub data Command : Type 0 where
  write_member : ClientInfo → Command
  publish_joined : ClientInfo → Command
  publish_left : ClientInfo → Command
  delete_member : ClientInfo → Command

-- `calls` has the calls that wait for Redis.
pub record Shared : Type 0 where
  pub hash : Hash
  pub rooms : Map LocallyPresent
  pub calls : Map Command

-- A command takes effect and is answered, or has no effect, or takes effect and the answer is lost. The
-- caller sees an error in the last two cases.
pub data Outcome : Type 0 where
  answered : Outcome
  refused : Outcome
  unanswered : Outcome

pub data Effect : Type 0 where
  -- the field of a client is written, or deleted
  wrote : ClientInfo → Effect
  deleted : ClientInfo → Effect
  -- an event is published
  joined : ClientInfo → Effect
  left : ClientInfo → Effect
  -- a call ends with an error of Redis, or a join as the local channel was closed
  failed : ℕ → Effect
  rejected : ℕ → Effect
  -- the channel is removed from the table of a gateway
  closed : ℕ → Effect

-- `hset_multiple` of `join`
unfoldable pub enter : ℕ → ClientInfo → Hash → Hash
enter now c h = record {
  members = insert c.client_id c h.members;
  last_seen = insert c.client_id now h.last_seen;
}

-- `refresh_member`
unfoldable pub refresh_member : ℕ → ℕ → Hash → Hash
refresh_member now client_id h = record h { last_seen = insert client_id now h.last_seen }

-- `hdel` of `leave`: the other field stays.
unfoldable pub forget_member : ℕ → Hash → Hash
forget_member client_id h = record h { members = remove client_id h.members }

-- `list_members`: the fields that do not start with `last_seen`.
unfoldable pub list_members : Hash → List ClientInfo
list_members h = values h.members

abbrev pub join_local : ℕ → ℕ → ClientInfo → Shared → Bool × LocallyPresent → Shared × List Effect
join_local call room c s (false, p) = (s, rejected call ∷ [])
join_local call room c s (true, p) =
    (record s { rooms = insert room p s.rooms; calls = insert call (write_member c) s.calls }, [])

abbrev pub join_in : ℕ → ℕ → ClientInfo → Shared → Option LocallyPresent → Shared × List Effect
join_in call room c s none = (s, rejected call ∷ [])
join_in call room c s (some p) = join_local call room c s (Presence.join c p)

-- `join`, up to its first command.
unfoldable pub join : ℕ → ℕ → ClientInfo → Shared → Shared × List Effect
unfolding Presence.join
join call room c s = join_in call room c s (lookup room s.rooms)

abbrev pub closed_if : Bool → ℕ → List Effect
closed_if true room = closed room ∷ []
closed_if false room = []

abbrev pub leave_hash : ℕ → ClientInfo → Shared → Shared
leave_hash call c s = record s { calls = insert call (publish_left c) s.calls }

abbrev pub leave_in : ℕ → ℕ → ClientInfo → Shared → Option LocallyPresent → Shared × List Effect
leave_in call room c s none = (leave_hash call c s, [])
leave_in call room c s (some p) =
    let (last, p') = Presence.leave c.client_id p in
    (leave_hash call c (record s { rooms = insert room p' s.rooms }), closed_if last room)

-- `leave`, up to its first command.
unfoldable pub leave : ℕ → ℕ → ClientInfo → Shared → Shared × List Effect
unfolding Presence.leave
leave call room c s = leave_in call room c s (lookup room s.rooms)

-- What a command does.
unfoldable pub apply : ℕ → Command → Hash → Hash
unfolding enter forget_member
apply now (write_member c) h = enter now c h
apply now (publish_joined c) h = h
apply now (publish_left c) h = h
apply now (delete_member c) h = forget_member c.client_id h

unfoldable pub told : Command → Effect
told (write_member c) = wrote c
told (publish_joined c) = joined c
told (publish_left c) = left c
told (delete_member c) = deleted c

-- The rest of the call after a command that was answered: the field is written before the join is
-- published, and the leave is published before the field is deleted.
unfoldable pub proceed : ℕ → Command → Map Command → Map Command
proceed call (write_member c) calls = insert call (publish_joined c) calls
proceed call (publish_joined c) calls = remove call calls
proceed call (publish_left c) calls = insert call (delete_member c) calls
proceed call (delete_member c) calls = remove call calls

unfoldable pub settle : ℕ → ℕ → Command → Outcome → Shared → Shared × List Effect
unfolding apply told proceed
settle call now x answered s =
    (record s { hash = apply now x s.hash; calls = proceed call x s.calls }, told x ∷ [])
settle call now x refused s = (record s { calls = remove call s.calls }, failed call ∷ [])
settle call now x unanswered s =
    (record s { hash = apply now x s.hash; calls = remove call s.calls }, told x ∷ failed call ∷ [])

abbrev pub proceed_with : ℕ → ℕ → Outcome → Shared → Option Command → Shared × List Effect
proceed_with call now r s none = (s, [])
proceed_with call now r s (some x) = settle call now x r s

-- A gateway opens a room, a client joins in it, the task of a handle refreshes its member, or lets it
-- leave as the handle is dropped, or the next command of a call is done.
pub data Step : Type 0 where
  open_room : ℕ → Step
  joins : ℕ → ℕ → ClientInfo → Step
  refreshes : ℕ → ℕ → Bool → Step
  leaves : ℕ → ℕ → ClientInfo → Step
  proceeds : ℕ → ℕ → Outcome → Step

unfoldable pub step : Shared → Step → Shared × List Effect
unfolding join leave refresh_member settle
step s (open_room room) = (record s { rooms = insert room empty s.rooms }, [])
step s (joins call room c) = join call room c s
step s (refreshes now id true) = (record s { hash = refresh_member now id s.hash }, [])
step s (refreshes now id false) = (s, [])
step s (leaves call room c) = leave call room c s
step s (proceeds call now r) = proceed_with call now r s (lookup call s.calls)

abbrev pub prepend : List Effect → Shared × List Effect → Shared × List Effect
prepend out (s, outs) = (s, out ++ outs)

unfoldable pub run : Shared → List Step → Shared × List Effect
run s [] = (s, [])
run s (x ∷ xs) = let (s', out) = step s x in prepend out (run s' xs)

-- Before anyone joined.
abbrev pub nobody : Shared
nobody = record { hash = record { members = []; last_seen = [] }; rooms = []; calls = [] }
