-- ===== src/Registry/Assigned.antt =====
-- server/channels/core/src: what `assign_channel` does to the row of a channel.
use voices.Common.{
  subst, ◌&&◌, ℕ, ◌≡◌, ◌≢◌, Bool, true, false, Option, none, some, lookup, refl, insert_same,
  insert_other, ap, sym, ◌∙◌, Bool-cases, inl, inr, arith, if◌then◌else◌,
}
use voices.Registry.{
  is_some, ChannelDb, Tables, Candidate, assigned, assign_row, assign_to, assign_with,
  assign_channel, get_smallest_load, set_assigned_to, same_server,
}
use voices.Registry.Load.{IsSmallest, get_smallest_load-IsSmallest}

-- The voice server of a channel afterwards: the old one, unless there is none or it is to be replaced.
abbrev pub target : Bool → Option ℕ → ℕ → ℕ
target false (some v) x = v
target reassign old x = x

-- What is left for a channel with the row `c`.
abbrev pub IsPlaced : ℕ → Bool → Tables → ChannelDb → Option Candidate × Tables → Type 0
IsPlaced cid reassign t c (none, t') = t' ≡ t
IsPlaced cid reassign t c (some x, t') =
    ((d : ChannelDb) × (lookup cid t'.channels ≡ some d)
      × (d.assigned_to ≡ some (target reassign c.assigned_to x.id)))
    × ((j : ℕ) → j ≢ cid → lookup j t'.channels ≡ lookup j t.channels)
    × (t'.voice_servers ≡ t.voice_servers)

same_server-eq : (o p : Option ℕ) → same_server o p ≡ true → o ≡ p
same_server-eq none none e = refl
same_server-eq none (some v) e = cc e
same_server-eq (some u) none e = cc e
same_server-eq (some u) (some v) e = ground (arith, e)

pub set_assigned_to-assigned :
    (now : ℕ) (sid : Option ℕ) (c : ChannelDb) → (set_assigned_to now sid c).assigned_to ≡ sid
unfolding set_assigned_to
set_assigned_to-assigned now sid c = elim (Bool-cases (same_server c.assigned_to sid)) [
  | inl e ↦ rw (e) (same_server-eq c.assigned_to sid e)
  | inr e ↦ rw (e) refl
]

if-then : (b : Bool) (c d : ChannelDb) → b ≡ true → (if b then c else d) ≡ c
if-then b c d e = rw (e) refl

if-else : (b : Bool) (c d : ChannelDb) → b ≡ false → (if b then c else d) ≡ d
if-else b c d e = rw (e) refl

pub assigned-target :
    (now sid : ℕ) (reassign : Bool) (c : ChannelDb) (o : Option ℕ)
    → c.assigned_to ≡ o
    → (assigned now sid reassign c).assigned_to ≡ some (target reassign o sid)
unfolding assigned
assigned-target now sid true c (some v) e =
    ap (λ d. d.assigned_to)
      (if-else (is_some c.assigned_to && false) c (set_assigned_to now (some sid) c)
        (ap (λ o. is_some o && false) e))
    ∙ set_assigned_to-assigned now (some sid) c
assigned-target now sid true c none e =
    ap (λ d. d.assigned_to)
      (if-else (is_some c.assigned_to && false) c (set_assigned_to now (some sid) c)
        (ap (λ o. is_some o && false) e))
    ∙ set_assigned_to-assigned now (some sid) c
assigned-target now sid false c (some v) e =
    ap (λ d. d.assigned_to)
      (if-then (is_some c.assigned_to && true) c (set_assigned_to now (some sid) c)
        (ap (λ o. is_some o && true) e))
    ∙ e
assigned-target now sid false c none e =
    ap (λ d. d.assigned_to)
      (if-else (is_some c.assigned_to && true) c (set_assigned_to now (some sid) c)
        (ap (λ o. is_some o && true) e))
    ∙ set_assigned_to-assigned now (some sid) c

found-IsPlaced :
    (now cid : ℕ) (reassign : Bool) (t : Tables) (c : ChannelDb) (x : Candidate)
    → IsPlaced cid reassign t c (some x, assign_row now cid x.id reassign (some c) t)
unfolding assign_row
found-IsPlaced now cid reassign t c x = (
  (
    assigned now x.id reassign c,
    insert_same cid cid t.channels (assigned now x.id reassign c) refl,
    assigned-target now x.id reassign c c.assigned_to refl,
  ),
  (λ j ne. insert_other cid j t.channels (assigned now x.id reassign c) (λ e. ne (sym e))),
  refl,
)

row-IsPlaced :
    (now cid : ℕ) (reassign : Bool) (t : Tables) (c : ChannelDb) (o : Option Candidate)
    → lookup cid t.channels ≡ some c
    → IsPlaced cid reassign t c (assign_with now cid reassign o t)
unfolding assign_with assign_to
row-IsPlaced now cid reassign t c none h = refl
row-IsPlaced now cid reassign t c (some x) h =
    subst (λ o. IsPlaced cid reassign t c (some x, assign_row now cid x.id reassign o t)) (sym h)
      (found-IsPlaced now cid reassign t c x)

given-with :
    (now cid : ℕ) (reassign : Bool) (t : Tables) (o : Option Candidate)
    → (assign_with now cid reassign o t).0 ≡ o
unfolding assign_with assign_to
given-with now cid reassign t none = refl
given-with now cid reassign t (some x) = refl

-- For a channel of the table: the voice server that is returned is an active one with its load, and no
-- active one has a smaller load; none is returned just where no voice server is active, and then nothing
-- changes. Otherwise the channel is assigned to the one that is returned, unless it has one already and
-- is not to be reassigned, and then it keeps that one; no other row changes.
pub assign_channel-IsPlaced :
    (now cid : ℕ) (reassign : Bool) (t : Tables) (c : ChannelDb)
    → lookup cid t.channels ≡ some c
    → IsSmallest now t.channels t.voice_servers (assign_channel now cid reassign t).0
      × IsPlaced cid reassign t c (assign_channel now cid reassign t)
unfolding assign_channel
assign_channel-IsPlaced now cid reassign t c h = (
  subst (IsSmallest now t.channels t.voice_servers)
      (sym (given-with now cid reassign t (get_smallest_load now t)))
      (get_smallest_load-IsSmallest now t),
  row-IsPlaced now cid reassign t c (get_smallest_load now t) h,
)
