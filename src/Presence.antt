-- ===== src/Presence.antt =====
-- server/gateway/src/server/channels/mod.rs and its state/local.rs: the members of a channel on this
-- gateway, the table of channels, and the handles `ChatRoomJoined` of the sessions. The state of a
-- channel is shared: `rooms` holds it under the name that the table and the handles refer to.
pub mod Handles
pub mod Drops
pub mod Rooms
mod Examples
use voices.Common.{
  ℕ, suc, Bool, true, false, Option, none, some, List, [], ◌∷◌, ◌++◌, String, Map, lookup, insert,
  remove, values, if◌then◌else◌, not, ◌==◌,
}

pub record ClientInfo : Type 0 where
  pub client_id : ℕ
  pub source_id : ℕ
  pub name : String

pub record LocallyPresent : Type 0 where
  pub inner : Map ClientInfo
  pub live : Bool

pub data ChannelEventKind : Type 0 where
  joined : String → ChannelEventKind
  left : String → ChannelEventKind

pub record ChannelEvent : Type 0 where
  pub source : ℕ
  pub source_id : ℕ
  pub kind : ChannelEventKind

abbrev pub empty : LocallyPresent
empty = record { inner = []; live = true }

-- `LocallyPresent::join`
unfoldable pub join : ClientInfo → LocallyPresent → Bool × LocallyPresent
join info p =
    if p.live then (true, record p { inner = insert info.client_id info p.inner }) else (false, p)

abbrev pub is_empty : Map ClientInfo → Bool
is_empty [] = true
is_empty (x ∷ xs) = false

-- `LocallyPresent::leave`; the answer says that nobody is left.
unfoldable pub leave : ℕ → LocallyPresent → Bool × LocallyPresent
leave client_id p =
    let rest = remove client_id p.inner in
    (is_empty rest, record p { inner = rest; live = not (is_empty rest) })

-- `LocalChannelEvents`: its members, and the events it has broadcast, the last one first.
pub record LocalChannelEvents : Type 0 where
  pub channel_id : ℕ
  pub tx : List ChannelEvent
  pub locally_present : LocallyPresent

-- `ChatRoomJoined`
pub record ChatRoomJoined : Type 0 where
  pub room : ℕ
  pub info : ClientInfo

pub record Channels : Type 0 where
  pub channel_map : Map ℕ
  pub rooms : Map LocalChannelEvents
  pub next_room : ℕ
  -- the handles whose client has not left, and which of them were dropped
  pub handles : Map ChatRoomJoined
  pub dropped : List ℕ

abbrev event_of : ClientInfo → ChannelEventKind → ChannelEvent
event_of info kind = record { source = info.client_id; source_id = info.source_id; kind = kind }

abbrev new_room : ℕ → LocalChannelEvents
new_room id = record { channel_id = id; tx = []; locally_present = empty }

abbrev or_insert : ℕ → Channels → Option ℕ → ℕ × Channels
or_insert id c (some room) = (room, c)
or_insert id c none = (
  c.next_room,
  record c {
    channel_map = insert id c.next_room c.channel_map;
    rooms = insert c.next_room (new_room id) c.rooms;
    next_room = suc c.next_room;
  },
)

-- `Channels::get_or_init`, where the registry has a voice host; and `reassign_voice`, which changes
-- nothing else than the voice host of a channel that is there.
unfoldable pub get_or_init : ℕ → Channels → ℕ × Channels
get_or_init id c = or_insert id c (lookup id c.channel_map)

abbrev joined_room :
    ℕ → ℕ → ClientInfo → LocalChannelEvents → Bool × LocallyPresent → Channels → Bool × Channels
joined_room handle room info l (false, p) c = (false, c)
joined_room handle room info l (true, p) c = (
  true,
  record c {
    rooms =
        insert room (record l { locally_present = p; tx = event_of info (joined info.name) ∷ l.tx })
          c.rooms;
    handles = insert handle (record { room = room; info = info }) c.handles;
  },
)

abbrev join_found : ℕ → ℕ → ClientInfo → Option LocalChannelEvents → Channels → Bool × Channels
join_found handle room info none c = (false, c)
join_found handle room info (some l) c =
    joined_room handle room info l (join info l.locally_present) c

-- `LocalChannelEvents::join`, with a new handle on success.
unfoldable pub join_room : ℕ → ℕ → ClientInfo → Channels → Bool × Channels
unfolding join
join_room handle room info c = join_found handle room info (lookup room c.rooms) c

-- `ChannelMap::close`
unfoldable pub close : ℕ → Channels → Channels
close id c = record c { channel_map = remove id c.channel_map }

abbrev close_if : Bool → ℕ → Channels → Channels
close_if true id c = close id c
close_if false id c = c

abbrev leave_found : ChatRoomJoined → Option LocalChannelEvents → Channels → Channels
leave_found h none c = c
leave_found h (some l) c =
    let (empty, p) = leave h.info.client_id l.locally_present in
    close_if empty l.channel_id (record c {
      rooms =
          insert h.room
            (record l { locally_present = p; tx = event_of h.info (left h.info.name) ∷ l.tx })
            c.rooms;
    })

-- `LocalChannelEvents::leave`
unfoldable pub leave_room : ChatRoomJoined → Channels → Channels
unfolding leave close
leave_room h c = leave_found h (lookup h.room c.rooms) c

abbrev is_in : ℕ → List ℕ → Bool
is_in handle [] = false
is_in handle (i ∷ is) = if i == handle then true else is_in handle is

abbrev without : ℕ → List ℕ → List ℕ
without handle [] = []
without handle (i ∷ is) = let rest = without handle is in if i == handle then rest else i ∷ rest

abbrev drop_found : ℕ → Option ChatRoomJoined → Channels → Channels
drop_found handle none c = c
drop_found handle (some h) c =
    leave_room h
      (record c { handles = remove handle c.handles; dropped = without handle c.dropped })

abbrev drop_held : ℕ → Option ChatRoomJoined → Channels → Channels
drop_held handle none c = c
drop_held handle (some h) c = record c { dropped = handle ∷ c.dropped }

-- A handle is dropped: the client is still in its room.
unfoldable pub drop_handle : ℕ → Channels → Channels
drop_handle handle c = drop_held handle (lookup handle c.handles) c

-- The task that waits for a handle finds that it was dropped and lets the client leave.
unfoldable pub leave_dropped : ℕ → Channels → Channels
unfolding leave_room
leave_dropped handle c =
    if is_in handle c.dropped then drop_found handle (lookup handle c.handles) c else c

-- `list_members`
abbrev pub list_members : LocalChannelEvents → List ClientInfo
list_members l = values l.locally_present.inner

pub data Op : Type 0 where
  init : ℕ → Op
  join_at : ℕ → ℕ → ClientInfo → Op
  drop : ℕ → Op
  leave_after : ℕ → Op

unfoldable pub step : Channels → Op → Channels
unfolding get_or_init join_room drop_handle leave_dropped
step c (init id) = (get_or_init id c).1
step c (join_at handle room info) = (join_room handle room info c).1
step c (drop handle) = drop_handle handle c
step c (leave_after handle) = leave_dropped handle c

unfoldable pub run : Channels → List Op → Channels
run c [] = c
run c (o ∷ os) = run (step c o) os

abbrev pub none_yet : Channels
none_yet = record { channel_map = []; rooms = []; next_room = 0; handles = []; dropped = [] }
