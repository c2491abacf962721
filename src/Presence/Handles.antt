-- ===== src/Presence/Handles.antt =====
-- server/gateway/src/server/channels: what holds of every open handle while no client joins a room
-- that it is in.
use voices.Common.{
  ℕ, ◌≡◌, ◌≢◌, ◌<◌, true, Option, none, some, List, [], ◌∷◌, Map, lookup, insert, lookup-insert,
  arith, refl, ap, sym, subst, ◌∙◌, inl, inr, insert_other, insert_same, insert_cases,
}
use native.Nat.{ℕᴺ_discrete}
use voices.Presence.{
  joined, ClientInfo, LocallyPresent, LocalChannelEvents, ChatRoomJoined, Channels, or_insert,
  joined_room, Op, join_at, step, none_yet, new_room, event_of,
}

-- The room of a handle: it is live and lists the client.
pub record IsPresent (c : Channels) (h : ChatRoomJoined) : Type 0 where
  pub room : LocalChannelEvents
  pub found : lookup h.room c.rooms ≡ some room
  pub live : room.locally_present.live ≡ true
  pub listed : lookup h.info.client_id room.locally_present.inner ≡ some h.info

pub record Inv (c : Channels) : Type 0 where
  pub present : (i : ℕ) (h : ChatRoomJoined) → lookup i c.handles ≡ some h → IsPresent c h
  -- a client has one handle of a room
  pub single :
      (i j : ℕ) (h k : ChatRoomJoined)
      → lookup i c.handles ≡ some h
      → lookup j c.handles ≡ some k
      → h.room ≡ k.room
      → h.info.client_id ≡ k.info.client_id
      → i ≡ j
  pub registered :
      (r : ℕ) (l : LocalChannelEvents)
      → lookup r c.rooms ≡ some l
      → l.locally_present.live ≡ true
      → lookup l.channel_id c.channel_map ≡ some r
  -- the names of the rooms
  pub old : (r : ℕ) (l : LocalChannelEvents) → lookup r c.rooms ≡ some l → r < c.next_room

-- A join takes a new handle, and its client has none of that room.
pub record IsNew (c : Channels) (handle room : ℕ) (info : ClientInfo) : Type 0 where
  pub unused : lookup handle c.handles ≡ none
  pub alone :
      (i : ℕ) (h : ChatRoomJoined)
      → lookup i c.handles ≡ some h
      → h.room ≡ room
      → h.info.client_id ≢ info.client_id

abbrev pub Allowed : Channels → Op → Type 0
Allowed c (join_at handle room info) = IsNew c handle room info
Allowed c _ = Unit

abbrev pub AllAllowed : Channels → List Op → Type 0
AllAllowed c [] = Unit
AllAllowed c (o ∷ os) = Allowed c o × AllAllowed (step c o) os

pub same_room :
    (rooms : Map LocalChannelEvents) (r : ℕ) (h : ChatRoomJoined) (l m : LocalChannelEvents)
    → r ≡ h.room
    → lookup r rooms ≡ some l
    → lookup h.room rooms ≡ some m
    → l ≡ m
same_room rooms r h l m e f g = cc (e, f, g)

pub none_yet-Inv : Inv none_yet
unfolding lookup
none_yet-Inv = record {
  present = λ i h e. cc e;
  single = λ i j h k e. cc e;
  registered = λ r l e. cc e;
  old = λ r l e. cc e;
}

module _ (c : Channels) (v : Inv c) where
  module _ (id : ℕ) (vacant : lookup id c.channel_map ≡ none) where
    abbrev c' : Channels
    c' = (or_insert id c none).1

    init-IsPresent : (i : ℕ) (h : ChatRoomJoined) → lookup i c.handles ≡ some h → IsPresent c' h
    init-IsPresent i h e =
        let p : IsPresent c h = v.present i h e in
        record {
          room = p.room;
          found = ground (
            arith,
            p.found,
            v.old h.room p.room p.found,
            lookup-insert c.next_room h.room (new_room id) c.rooms,
          );
          live = p.live;
          listed = p.listed;
        }

    init-registered :
        (r : ℕ) (l : LocalChannelEvents)
        → lookup r c'.rooms ≡ some l
        → l.locally_present.live ≡ true
        → lookup l.channel_id c'.channel_map ≡ some r
    init-registered r l e live = elim (insert_cases c.next_room r c.rooms (new_room id) l e) [
      | inl (at, same) ↦
          insert_same id l.channel_id c.channel_map c.next_room (ap (λ m. m.channel_id) same)
          ∙ ap some at
      | inr (ne, f) ↦
          insert_other id l.channel_id c.channel_map c.next_room
            (λ same. cc (v.registered r l f live, vacant, same))
          ∙ v.registered r l f live
    ]

    init-old : (r : ℕ) (l : LocalChannelEvents) → lookup r c'.rooms ≡ some l → r < c'.next_room
    init-old r l e = ground (arith, v.old r l, e, lookup-insert c.next_room r (new_room id) c.rooms)

  pub init-Inv : (id : ℕ) (o : Option ℕ) → lookup id c.channel_map ≡ o → Inv (or_insert id c o).1
  init-Inv id (some r) e = v
  init-Inv id none e = record {
    present = init-IsPresent id e;
    single = v.single;
    registered = init-registered id e;
    old = init-old id e;
  }

  module _ (handle room : ℕ) (info : ClientInfo) (l : LocalChannelEvents)
      (found : lookup room c.rooms ≡ some l) (live : l.locally_present.live ≡ true)
      (n : IsNew c handle room info) where
    abbrev p' : LocallyPresent
    p' = record (l.locally_present) { inner = insert info.client_id info l.locally_present.inner }

    abbrev d : Channels
    d = (joined_room handle room info l (true, p') c).1

    abbrev l' : LocalChannelEvents
    l' = record l { locally_present = p'; tx = event_of info (joined info.name) ∷ l.tx }

    old-IsPresent : (i : ℕ) (h : ChatRoomJoined) → lookup i c.handles ≡ some h → IsPresent d h
    old-IsPresent i h f =
        let p : IsPresent c h = v.present i h f in
        elim (ℕᴺ_discrete room h.room) [
          | yes same ↦ record {
            room = l';
            found = insert_same room h.room c.rooms l' same;
            live = live;
            listed =
                insert_other info.client_id h.info.client_id l.locally_present.inner info
                  (λ e. n.alone i h f (sym same) (sym e))
                ∙ (rw (same_room c.rooms room h l p.room same found p.found) p.listed);
          }
          | no ne ↦ record {
            room = p.room;
            found = insert_other room h.room c.rooms l' ne ∙ p.found;
            live = p.live;
            listed = p.listed;
          }
        ]

    abbrev nh : ChatRoomJoined
    nh = record { room = room; info = info }

    join-IsPresent : (i : ℕ) (h : ChatRoomJoined) → lookup i d.handles ≡ some h → IsPresent d h
    join-IsPresent i h e =
        elim (insert_cases handle i c.handles (record { room = room; info = info }) h e) [
          | inl (at, same) ↦ subst (IsPresent d) same (record {
            room = l';
            found = insert_same room room c.rooms l' refl;
            live = live;
            listed = insert_same info.client_id info.client_id l.locally_present.inner info refl;
          })
          | inr (ne, f) ↦ old-IsPresent i h f
        ]

    join-single :
        (i j : ℕ) (h k : ChatRoomJoined)
        → lookup i d.handles ≡ some h
        → lookup j d.handles ≡ some k
        → h.room ≡ k.room
        → h.info.client_id ≡ k.info.client_id
        → i ≡ j
    join-single i j h k e f a b = elim (insert_cases handle i c.handles nh h e) [
      | inl (at, same) ↦ elim (insert_cases handle j c.handles nh k f) [
        | inl (at', same') ↦ sym at ∙ at'
        | inr (ne', f') ↦ absurd (
            n.alone j k f' (sym a ∙ ap (λ x. x.room) (sym same))
              (sym b ∙ ap (λ x. x.info.client_id) (sym same)))
      ]
      | inr (ne, e') ↦ elim (insert_cases handle j c.handles nh k f) [
        | inl (at', same') ↦ absurd (
            n.alone i h e' (a ∙ ap (λ x. x.room) (sym same'))
              (b ∙ ap (λ x. x.info.client_id) (sym same')))
        | inr (ne', f') ↦ v.single i j h k e' f' a b
      ]
    ]

    join-registered :
        (r : ℕ) (m : LocalChannelEvents)
        → lookup r d.rooms ≡ some m
        → m.locally_present.live ≡ true
        → lookup m.channel_id d.channel_map ≡ some r
    join-registered r m e a = elim (insert_cases room r c.rooms l' m e) [
      | inl (at, same) ↦
          ap (λ x. lookup x.channel_id c.channel_map) (sym same)
          ∙ v.registered room l found live
          ∙ ap some at
      | inr (ne, f) ↦ v.registered r m f a
    ]

    join-old : (r : ℕ) (m : LocalChannelEvents) → lookup r d.rooms ≡ some m → r < d.next_room
    join-old r m e = elim (insert_cases room r c.rooms l' m e) [
      | inl (at, same) ↦ subst (λ x. x < c.next_room) at (v.old room l found)
      | inr (ne, f) ↦ v.old r m f
    ]

    pub join-Inv : Inv d
    join-Inv = record {
      present = join-IsPresent;
      single = join-single;
      registered = join-registered;
      old = join-old;
    }
