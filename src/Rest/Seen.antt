-- ===== src/Rest/Seen.antt =====
-- client/src/channels_api.rs and server/gateway/src/rest_api.rs: what a client of the gateway is told of
-- who is in a channel.
use voices.Common.{
  both_branches, ==_iff, ℕ, ◌≡◌, ◌⊎◌, true, Option, none, some, List, [], ◌∷◌, String, Map, lookup,
  values, refl, ap, sym, ◌∙◌, inl, inr, ◌==◌, Bool-cases, subst,
}
use voices.Presence.{ClientInfo, Channels, ChatRoomJoined, Op, run, none_yet}
use voices.Presence.Handles.{IsPresent, AllAllowed}
use voices.Presence.Drops.{run-IsPresent}
use voices.Registry.{Tables, ChannelDb}
use voices.Registry.Query.{get_channels}
use voices.ChannelRegistry.{local_registry}
use voices.Rest.{Request, GetChannelResponse, Body, local_lists, one_server}
use voices.Rest.Handlers.{serve}
use voices.Rest.Codes.{present_at, all_shown, server_seen, server_answer}
use voices.Rest.Fetch.{Fetched, RequestError, fetch, handle_response, parsed}

abbrev pub Listed : ClientInfo → List ClientInfo → Type 0
Listed info [] = ⊥
Listed info (x ∷ xs) = (x ≡ info) ⊎ Listed info xs

-- A channel is shown with a client in it.
abbrev pub Shows : ℕ → ClientInfo → List GetChannelResponse → Type 0
Shows cid info [] = ⊥
Shows cid info (x ∷ xs) = ((x.channel_id ≡ cid) × Listed info x.present) ⊎ Shows cid info xs

lookup-Listed :
    (k : ℕ) (m : Map ClientInfo) (info : ClientInfo)
    → lookup k m ≡ some info
    → Listed info (values m)
unfolding lookup
lookup-Listed k [] info h = absurd (cc h)
lookup-Listed k ((j, x) ∷ m) info h = elim (Bool-cases (j == k)) [
  | inl e ↦ inl (cc (rw (e) at h))
  | inr e ↦ inr (lookup-Listed k m info (rw (e) at h))
]

lookup-Shows :
    (c : Channels) (cid sid : ℕ) (m : Map ChannelDb) (d : ChannelDb) (info : ClientInfo)
    → lookup cid m ≡ some d
    → d.server_id ≡ sid
    → Listed info (present_at c cid)
    → Shows cid info (all_shown c (get_channels sid m))
unfolding lookup get_channels all_shown
lookup-Shows c cid sid [] d info h e l = absurd (cc h)
lookup-Shows c cid sid ((j, x) ∷ m) d info h e l = elim (Bool-cases (j == cid)) [
  | inl same ↦
      let k : j ≡ cid = (==_iff j cid).0 same in
      let f : x ≡ d = cc (rw (same) at h) in
      let g : (x.server_id == sid) ≡ true =
        (==_iff x.server_id sid).1 (ap (λ y. y.server_id) f ∙ e) in
      rw (g) (inl (k, subst (λ i. Listed info (present_at c i)) (sym k) l))
  | inr other ↦
      let rest : Shows cid info (all_shown c (get_channels sid m)) =
        lookup-Shows c cid sid m d info (rw (other) at h) e l in
      both_branches (λ infos. Shows cid info (all_shown c infos)) (x.server_id == sid) (inr rest)
        rest
]

-- What a client makes of a page for a server.
abbrev pub fetched :
    {A : Type 0}
    → (Option Body → Option A)
    → Option String
    → ℕ
    → List GetChannelResponse
    → Fetched A
fetched parse none sid cs = Fetched.err RequestError.fatal
fetched parse (some name) sid cs =
    parsed (parse (some (one_server (record { server_id = sid; name = name; channels = cs }))))

fetch-seen :
    {A : Type 0} (parse : Option Body → Option A) (c : Channels) (sid : ℕ) (m : Map ChannelDb)
    (o : Option String)
    → fetch parse true (some (server_seen c sid m o))
      ≡ fetched parse o sid (all_shown c (get_channels sid m))
unfolding fetch handle_response
fetch-seen parse c sid m none = refl
fetch-seen parse c sid m (some name) = refl

present-Listed :
    (c : Channels) (h : ChatRoomJoined) (p : IsPresent c h) (cid : ℕ)
    → lookup cid c.channel_map ≡ some h.room
    → Listed h.info (present_at c cid)
unfolding present_at
present-Listed c h p cid e =
    rw (e)
      (rw (p.found) (lookup-Listed h.info.client_id p.room.locally_present.inner h.info p.listed))

-- For a gateway with the local channel registry and its channels in memory (standalone): while no client
-- joins a room that it is in, which it is until the leave of its handle has run, a client that asks the gateway for a server that the table has gets what its parser makes of one list of the channels, and the list shows every client that has
-- an open handle of a room in the channel of that room, if that channel is one of the server.
pub fetch-Shows :
    {A : Type 0} (parse : Option Body → Option A) (ops : List Op) (handle : ℕ) (h : ChatRoomJoined)
    (now id cid sid : ℕ) (name : String) (d : ChannelDb) (t : Tables)
    → AllAllowed none_yet ops
    → lookup handle (run none_yet ops).handles ≡ some h
    → lookup cid (run none_yet ops).channel_map ≡ some h.room
    → lookup sid t.servers ≡ some name
    → lookup cid t.channels ≡ some d
    → d.server_id ≡ sid
    → (cs : List GetChannelResponse) × (fetch parse true (
          some
            (serve
              (local_registry now id)
              (local_lists (run none_yet ops))
              (Request.get_server sid)
              t).0)
        ≡ parsed
            (parse (some (one_server (record { server_id = sid; name = name; channels = cs })))))
      × Shows cid h.info cs
fetch-Shows parse ops handle h now id cid sid name d t allowed holds at e f g =
    let c : Channels = run none_yet ops in
    (
      all_shown c (get_channels sid t.channels),
      ap (λ r. fetch parse true (some r)) (server_answer now id c t sid)
          ∙ fetch-seen parse c sid t.channels (lookup sid t.servers)
          ∙ ap (λ o. fetched parse o sid (all_shown c (get_channels sid t.channels))) e,
      lookup-Shows c cid sid t.channels d h.info f g
          (present-Listed c h (run-IsPresent ops allowed handle h holds).0 cid at),
    )
