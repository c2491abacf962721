-- ===== src/ChannelRegistry/Same.antt =====
-- server/gateway/src/channel_registry: the distributed registry compared to the local one over the same
-- tables.
use voices.Common.{ℕ, ◌≤◌, ◌≡◌, refl, ap, arith, Option, none, some, List, [], ◌∷◌, map}
use voices.VoiceServer.Requests.{ok}
use voices.Registry.{Tables, cleanup_stale}
use voices.Registry.Query.{
  ServerWithChannels, Channel, get_channel, get_server, create_server, create_channel,
}
use voices.Registry.Query
use voices.Grpc.{Codec, other_status, not_found, map_ok, ◌>>=◌}
use voices.ChannelRegistry.{
  Server, Ask, create_a_server, get_a_server, create_a_channel, get_a_channel, get_servers, cleanup,
  server, channel_created, channel, servers, deleted, stale_ids, servers_page, unwrap_or, page_as,
  created_as, local_registry,
}
use voices.ChannelRegistry.Wire.{
  write_page, write_time, read_time, write_info, write_server, write_channel, write_row, read_infos,
  read_server, read_channel, read_rows, read_ids, or_failure,
}
use voices.ChannelRegistry.Remote.{
  in_state, channel_made, found_or_none, failed, min, remote_registry, or_status, internal_error,
}

-- A request for a page says how many rows it wants, at most a hundred.
abbrev pub IsSized : Ask → Type 0
IsSized (get_servers page none) = ⊥
IsSized (get_servers page (some n)) = n ≤ 100
IsSized _ = Unit

read-write_time : (ms : ℕ) → read_time (write_time ms) ≡ ms
unfolding read_time
read-write_time ms = omega arith

min-hundred : (n : ℕ) → n ≤ 100 → min n 100 ≡ n
min-hundred n le = ground arith

module _ (codec : Codec) where
  read-write_infos :
      (cs : List Query.ChannelInfo) → read_infos codec (map (write_info codec) cs) ≡ ok cs
  unfolding read_infos
  read-write_infos [] = refl
  read-write_infos (c ∷ cs) = rw (codec.uuid-round c.id, read-write_infos cs) refl

  read-write_server : (s : ServerWithChannels) → read_server codec (write_server codec s) ≡ ok s
  unfolding read_server write_server
  read-write_server s = rw (codec.uuid-round s.id, read-write_infos s.channels) refl

  read-write_channel : (c : Channel) → read_channel codec (write_channel codec c) ≡ ok c
  unfolding read_channel write_channel
  read-write_channel c =
      rw (codec.uuid-round c.info.id, codec.uuid-round c.server_id, read-write_time c.updated_at)
        refl

  read-write_rows : (xs : List Server) → read_rows codec (map (write_row codec) xs) ≡ ok xs
  unfolding read_rows
  read-write_rows [] = refl
  read-write_rows (x ∷ xs) = rw (codec.uuid-round x.id, read-write_rows xs) refl

  read-write_ids : (ids : List ℕ) → read_ids codec (map codec.uuid_to_string ids) ≡ ok ids
  unfolding read_ids
  read-write_ids [] = refl
  read-write_ids (n ∷ ids) = rw (codec.uuid-round n, read-write_ids ids) refl

  server_given :
      (o : Option ServerWithChannels)
      → found_or_none
          (λ r. map_ok (λ s. server (some s)) (read_server codec r))
          (server none)
          (or_status (other_status not_found "server not found") o >>= λ s.
            ok (write_server codec s))
        ≡ ok (server o)
  server_given none = refl
  server_given (some s) = ap (map_ok (λ x. server (some x))) (read-write_server s)

  channel_given :
      (o : Option Channel)
      → found_or_none
          (λ r. map_ok (λ c. channel (some c)) (read_channel codec r))
          (channel none)
          (or_status (other_status not_found "channel does not exist") o >>= λ c.
            ok (write_channel codec c))
        ≡ ok (channel o)
  channel_given none = refl
  channel_given (some c) = ap (map_ok (λ x. channel (some x))) (read-write_channel c)

  page_given :
      (o : Option (List Server × ℕ))
      → (failed (or_status internal_error o >>= λ r. ok (write_page codec r)) >>= λ r.
          map_ok (λ xs. servers xs r.pages) (read_rows codec r.info))
        ≡ page_as o
  page_given none = refl
  page_given (some (xs, pages)) = ap (map_ok (λ ys. servers ys pages)) (read-write_rows xs)

module _ (codec : Codec) (now id : ℕ) where
  channel_kept :
      (x : Option ℕ × Tables)
      → in_state
          (found_or_none
            (λ cid. map_ok (λ n. channel_created (some n)) (or_failure (codec.uuid_from_str cid)))
            (channel_created none))
          (channel_made codec now id x)
        ≡ created_as x
  channel_kept (none, t) = refl
  channel_kept (some n, t) = rw (codec.uuid-round n) refl

  -- If what is printed is parsed back and the channels service answers, the distributed registry
  -- answers each request as the local one and leaves the tables the same, whatever is found or refused;
  -- provided that a request for a page of servers says how many rows it wants, at most a hundred: the
  -- two have different defaults, and the service cuts off what is more.
  pub remote-local :
      (req : Ask) (t : Tables)
      → IsSized req
      → remote_registry codec now id req t ≡ local_registry now id req t
  unfolding remote_registry local_registry create_server
  remote-local (create_a_server name) t z = rw (codec.uuid-round id) refl
  remote-local (get_a_server sid) t z =
      rw (codec.uuid-round sid) (ap (λ r. (r, t)) (server_given codec (get_server sid t)))
  remote-local (create_a_channel sid name) t z =
      rw (codec.uuid-round sid) (channel_kept (create_channel now id sid name t))
  remote-local (get_a_channel cid) t z =
      rw (codec.uuid-round cid) (ap (λ r. (r, t)) (channel_given codec (get_channel now cid t)))
  remote-local (get_servers page none) t z = absurd z
  remote-local (get_servers page (some n)) t z =
      rw (min-hundred n z)
        (ap (λ r. (r, t)) (page_given codec (servers_page (unwrap_or 1 page) n t)))
  remote-local cleanup t z =
      ap (λ r. (map_ok deleted r, cleanup_stale now t))
        (read-write_ids codec (stale_ids now t.voice_servers))
