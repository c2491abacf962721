-- ===== src/VoiceServer/Assign.antt =====
-- server/voice/core/src/lib.rs: `assign_channel`.
use voices.Common.{
  ℕ, ◌≡◌, Bool, true, false, Option, none, some, lookup, refl, ap, lookup-insert, arith,
}
use voices.Ports.{Ports, PortRef}
use voices.Ports
use voices.Ports.Restore.{get-none-same, drop-get}
use voices.VoiceServer.{VoiceServer, Channel, open_channel, assign_channel, assign_entry, with_port}

-- What an assignment leaves behind: after `some c`, the entry of the registry is `c`, and another
-- assignment right after it gives it again and changes nothing; after `none`, the server is the one from before.
abbrev pub Leaves : ℕ → ℕ → Bool → VoiceServer → Option Channel × VoiceServer → Type 0
Leaves id now bound s (some c, s') =
    (lookup id s'.channels ≡ some c) × (assign_channel now bound id s' ≡ (some c, s'))
Leaves id now bound s (none, s') = s' ≡ s

assign-occupied :
    (id now : ℕ) (bound : Bool) (s : VoiceServer) (c : Channel)
    → lookup id s.channels ≡ some c
    → (lookup id s.channels ≡ some c) × (assign_channel now bound id s ≡ (some c, s))
unfolding assign_channel assign_entry
assign-occupied id now bound s c h = (h, rw (h) refl)

module _ (id now' : ℕ) (bound' : Bool) where
  vacant-Leaves :
      (now : ℕ) (bound : Bool) (s : VoiceServer) (o : Option PortRef)
      → (Ports.get s.ports).0 ≡ o
      → Leaves id now' bound' s (with_port now bound id s (o, (Ports.get s.ports).1))
  unfolding open_channel
  vacant-Leaves now bound s none h = ap (λ p. record s { ports = p }) (get-none-same s.ports h)
  vacant-Leaves now false s (some port) h =
      ap (λ p. record s { ports = p }) (drop-get s.ports port h)
  vacant-Leaves now true s (some port) h =
      let c : Channel = record { channel_ctl = s.next_ctl; port = port } in
      assign-occupied id now' bound'
        (open_channel now true id port (record s { ports = (Ports.get s.ports).1 })).1 c
        (ground (arith, lookup-insert id id c s.channels))

  entry-Leaves :
      (now : ℕ) (bound : Bool) (s : VoiceServer) (e : Option Channel)
      → lookup id s.channels ≡ e
      → Leaves id now' bound' s (assign_entry now bound id s e)
  unfolding assign_entry
  entry-Leaves now bound s (some c) h = assign-occupied id now' bound' s c h
  entry-Leaves now bound s none h = vacant-Leaves now bound s (Ports.get s.ports).0 refl

  -- An assignment that succeeds leaves the channel it returns in the registry, and an assignment of the
  -- same id right after it returns the same channel and changes nothing. One that fails, for want of a port
  -- or because the socket cannot be bound, leaves the server as it was, its port included.
  pub assign-Leaves :
      (now : ℕ) (bound : Bool) (s : VoiceServer)
      → Leaves id now' bound' s (assign_channel now bound id s)
  unfolding assign_channel
  assign-Leaves now bound s = entry-Leaves now bound s (lookup id s.channels) refl
