-- ===== src/Presence/Drops.antt =====
-- server/gateway/src/server/channels: a handle is dropped, and its client leaves.
use voices.Common.{
  ℕ, ◌≡◌, ◌≢◌, ◌⊎◌, ◌<◌, Bool, true, false, Option, none, some, List, [], ◌∷◌, Map, lookup, insert,
  remove, refl, if◌then◌else◌, not, ap, sym, subst, ◌∙◌, inl, inr, Bool-cases, insert_other,
  insert_same, insert_cases, remove_other, remove_cases, both_branches,
}
use native.Nat.{ℕᴺ_discrete}
use voices.Presence.{
  ClientInfo, join, leave, is_empty, LocalChannelEvents, ChatRoomJoined, Channels, get_or_init,
  joined_room, join_found, join_room, close, close_if, leave_found, leave_room, drop_found,
  drop_handle, drop_held, is_in, without, leave_dropped, Op, init, join_at, drop, leave_after, step,
  run, none_yet, event_of, left,
}
use voices.Presence.Handles.{
  IsPresent, Inv, IsNew, Allowed, AllAllowed, same_room, none_yet-Inv, init-Inv, join-Inv,
}

empty-none : (m : Map ClientInfo) (k : ℕ) (x : ClientInfo) → is_empty m ≡ true → lookup k m ≢ some x
unfolding lookup
empty-none [] k x e h = cc h
empty-none (y ∷ m) k x e h = cc e

not-true : (b : Bool) → not b ≡ true → b ≡ false
not-true true e = cc e
not-true false e = refl

-- What `close` leaves alone.
close_if-same :
    (b : Bool) (id : ℕ) (c : Channels)
    → ((close_if b id c).rooms ≡ c.rooms)
      × ((close_if b id c).handles ≡ c.handles)
      × ((close_if b id c).next_room ≡ c.next_room)
unfolding close
close_if-same true id c = (refl, refl, refl)
close_if-same false id c = (refl, refl, refl)

close_if-other :
    (b : Bool) (id j : ℕ) (c : Channels)
    → (id ≢ j) ⊎ (b ≡ false)
    → lookup j (close_if b id c).channel_map ≡ lookup j c.channel_map
unfolding close
close_if-other true id j c (inl ne) = remove_other id j c.channel_map ne
close_if-other true id j c (inr e) = cc e
close_if-other false id j c ne = refl

module _ (c : Channels) (v : Inv c) (handle : ℕ) (h : ChatRoomJoined)
    (held : lookup handle c.handles ≡ some h) where
  module _ (b : Bool) (l : LocalChannelEvents) (found : lookup h.room c.rooms ≡ some l)
      (live : l.locally_present.live ≡ true)
      (e : is_empty (remove h.info.client_id l.locally_present.inner) ≡ b) where
    abbrev l' : LocalChannelEvents
    l' = record l {
      locally_present = record {
        inner = remove h.info.client_id l.locally_present.inner;
        live = not b;
      };
      tx = event_of h.info (left h.info.name) ∷ l.tx;
    }

    abbrev d : Channels
    d = close_if b l.channel_id (record c {
      handles = remove handle c.handles;
      dropped = without handle c.dropped;
      rooms = insert h.room l' c.rooms;
    })

    same_rooms :
        (d.rooms ≡ insert h.room l' c.rooms)
        × (d.handles ≡ remove handle c.handles)
        × (d.next_room ≡ c.next_room)
    same_rooms = close_if-same b l.channel_id (record c {
      handles = remove handle c.handles;
      dropped = without handle c.dropped;
      rooms = insert h.room l' c.rooms;
    })

    -- Another client of the room is still listed, and the room is live.
    stays :
        (k : ChatRoomJoined)
        → k.info.client_id ≢ h.info.client_id
        → lookup k.info.client_id l.locally_present.inner ≡ some k.info
        → (not b ≡ true) × (lookup k.info.client_id l'.locally_present.inner ≡ some k.info)
    stays k ne f =
        let g : lookup k.info.client_id l'.locally_present.inner ≡ some k.info =
          remove_other h.info.client_id k.info.client_id l.locally_present.inner (λ x. ne (sym x))
          ∙ f in
        (
          elim (Bool-cases b) [
            | inl t ↦ absurd (empty-none l'.locally_present.inner k.info.client_id k.info (e ∙ t) g)
            | inr u ↦ ap not u
          ],
          g,
        )

    drop-IsPresent : (i : ℕ) (k : ChatRoomJoined) → lookup i d.handles ≡ some k → IsPresent d k
    drop-IsPresent i k x =
        let (ne, f) = remove_cases handle i c.handles k (ap (lookup i) (sym same_rooms.1) ∙ x) in
        let p : IsPresent c k = v.present i k f in
        elim (ℕᴺ_discrete h.room k.room) [
          | yes same ↦
              let st =
                stays k (λ y. ne (v.single handle i h k held f same (sym y)))
                  (rw (same_room c.rooms h.room k l p.room same found p.found) p.listed) in
              record {
                room = l';
                found = ap (lookup k.room) same_rooms.0 ∙ insert_same h.room k.room c.rooms l' same;
                live = st.0;
                listed = st.1;
              }
          | no other ↦ record {
            room = p.room;
            found =
                ap (lookup k.room) same_rooms.0
                ∙ insert_other h.room k.room c.rooms l' other
                ∙ p.found;
            live = p.live;
            listed = p.listed;
          }
        ]

    drop-single :
        (i j : ℕ) (k m : ChatRoomJoined)
        → lookup i d.handles ≡ some k
        → lookup j d.handles ≡ some m
        → k.room ≡ m.room
        → k.info.client_id ≡ m.info.client_id
        → i ≡ j
    drop-single i j k m x y =
        v.single i j k m
          (remove_cases handle i c.handles k (ap (lookup i) (sym same_rooms.1) ∙ x)).1
          (remove_cases handle j c.handles m (ap (lookup j) (sym same_rooms.1) ∙ y)).1

    drop-old : (r : ℕ) (m : LocalChannelEvents) → lookup r d.rooms ≡ some m → r < d.next_room
    drop-old r m x =
        subst (λ n. r < n) (sym same_rooms.2)
          (elim (insert_cases h.room r c.rooms l' m (ap (lookup r) (sym same_rooms.0) ∙ x)) [
            | inl (at, same) ↦ subst (λ y. y < c.next_room) at (v.old h.room l found)
            | inr (ne, f) ↦ v.old r m f
          ])

    drop-registered :
        (r : ℕ) (m : LocalChannelEvents)
        → lookup r d.rooms ≡ some m
        → m.locally_present.live ≡ true
        → lookup m.channel_id d.channel_map ≡ some r
    drop-registered r m x a =
        elim (insert_cases h.room r c.rooms l' m (ap (lookup r) (sym same_rooms.0) ∙ x)) [
          | inl (at, same) ↦
              kept m (inr (not-true b (ap (λ y. y.locally_present.live) same ∙ a)))
              ∙ ap (λ y. lookup y.channel_id c.channel_map) (sym same)
              ∙ v.registered h.room l found live
              ∙ ap some at
          | inr (ne, f) ↦
              kept m (
                inl (λ same.
                  ne (some_room same (v.registered h.room l found live) (v.registered r m f a))))
              ∙ v.registered r m f a
        ]
      where
        kept :
            (m : LocalChannelEvents)
            → (l.channel_id ≢ m.channel_id) ⊎ (b ≡ false)
            → lookup m.channel_id d.channel_map ≡ lookup m.channel_id c.channel_map
        kept m = close_if-other b l.channel_id m.channel_id (record c {
          handles = remove handle c.handles;
          dropped = without handle c.dropped;
          rooms = insert h.room l' c.rooms;
        })

        some_room :
            {i j x y : ℕ}
            → i ≡ j
            → lookup i c.channel_map ≡ some x
            → lookup j c.channel_map ≡ some y
            → x ≡ y
        some_room e p q = cc (e, p, q)

    drop-Inv : Inv d
    drop-Inv = record {
      present = drop-IsPresent;
      single = drop-single;
      registered = drop-registered;
      old = drop-old;
    }

drop_found-Inv :
    (c : Channels) (handle : ℕ) (o : Option ChatRoomJoined)
    → lookup handle c.handles ≡ o
    → Inv c
    → Inv (drop_found handle o c)
unfolding leave_room leave
drop_found-Inv c handle none e v = v
drop_found-Inv c handle (some h) e v =
    let p : IsPresent c h = v.present handle h e in
    subst
      (λ o. Inv (
        leave_found h o
          (record c { handles = remove handle c.handles; dropped = without handle c.dropped })))
      (sym p.found)
      (drop-Inv c v handle h e (is_empty (remove h.info.client_id p.room.locally_present.inner))
        p.room p.found p.live refl)

drop_held-Inv :
    (c : Channels) (handle : ℕ) (o : Option ChatRoomJoined) → Inv c → Inv (drop_held handle o c)
drop_held-Inv c handle none v = v
drop_held-Inv c handle (some h) v = record {
  present = λ i h e.
      let p : IsPresent c h = v.present i h e in
      record { room = p.room; found = p.found; live = p.live; listed = p.listed };
  single = v.single;
  registered = v.registered;
  old = v.old;
}

joined_if-Inv :
    (handle room : ℕ) (info : ClientInfo) (c : Channels) (l : LocalChannelEvents)
    → lookup room c.rooms ≡ some l
    → IsNew c handle room info
    → Inv c
    → (b : Bool) → l.locally_present.live ≡ b
    → Inv
        (joined_room handle room info l
          (if b
            then (
              true,
              record (l.locally_present) {
                inner = insert info.client_id info l.locally_present.inner;
              },
            )
            else (false, l.locally_present))
          c).1
joined_if-Inv handle room info c l e n v true live = join-Inv c v handle room info l e live n
joined_if-Inv handle room info c l e n v false dead = v

join_found-Inv :
    (handle room : ℕ) (info : ClientInfo) (c : Channels) (o : Option LocalChannelEvents)
    → lookup room c.rooms ≡ o
    → IsNew c handle room info
    → Inv c
    → Inv (join_found handle room info o c).1
unfolding join
join_found-Inv handle room info c none e n v = v
join_found-Inv handle room info c (some l) e n v =
    joined_if-Inv handle room info c l e n v l.locally_present.live refl

step-Inv : (c : Channels) (o : Op) → Allowed c o → Inv c → Inv (step c o)
unfolding step get_or_init join_room drop_handle leave_dropped
step-Inv c (init id) a v = init-Inv c v id (lookup id c.channel_map) refl
step-Inv c (join_at handle room info) a v =
    join_found-Inv handle room info c (lookup room c.rooms) refl a v
step-Inv c (drop handle) a v = drop_held-Inv c handle (lookup handle c.handles) v
step-Inv c (leave_after handle) a v =
    both_branches Inv (is_in handle c.dropped)
      (drop_found-Inv c handle (lookup handle c.handles) refl v) v

run-Inv : (c : Channels) (os : List Op) → AllAllowed c os → Inv c → Inv (run c os)
unfolding run
run-Inv c [] a v = v
run-Inv c (o ∷ os) (a, as') v = run-Inv (step c o) os as' (step-Inv c o a v)

-- While no client joins a room that it is in, which it is until the leave of its handle has run, every
-- handle that is open, or dropped and its leave not run, is in a live room that lists its client, and the
-- table of channels has that room under the room's channel.
pub run-IsPresent :
    (os : List Op)
    → AllAllowed none_yet os
    → (i : ℕ) (h : ChatRoomJoined) → lookup i (run none_yet os).handles ≡ some h
    → (p : IsPresent (run none_yet os) h) × (lookup p.room.channel_id (run none_yet os).channel_map
        ≡ some h.room)
run-IsPresent os a i h e =
    let v : Inv (run none_yet os) = run-Inv none_yet os a none_yet-Inv in
    let p : IsPresent (run none_yet os) h = v.present i h e in
    (p, v.registered h.room p.room p.found p.live)
