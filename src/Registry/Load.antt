-- ===== src/Registry/Load.antt =====
-- server/channels/core/src/db_models/voice_server.rs: what `get_smallest_load` finds.
use voices.Common.{
  ℕ, ◌≡◌, ◌⊎◌, ◌≤◌, true, false, Option, none, some, [], ◌∷◌, Map, arith, refl, inl, inr,
  Bool-cases, leb, subst, leb→le,
}
use voices.Registry.{
  ChannelDb, VoiceServerDb, Tables, is_active, load, Candidate, lesser, smallest, get_smallest_load,
}

-- The table has the row.
abbrev pub Has : ℕ → VoiceServerDb → Map VoiceServerDb → Type 0
Has id v [] = ⊥
Has id v ((i, w) ∷ m) = ((i ≡ id) × (w ≡ v)) ⊎ Has id v m

-- `some x`: an active row of the table with its load, and no active row has a smaller one. `none`: no
-- row is active.
abbrev pub IsSmallest : ℕ → Map ChannelDb → Map VoiceServerDb → Option Candidate → Type 0
IsSmallest now channels m none = (id : ℕ) (v : VoiceServerDb) → Has id v m → is_active now v ≡ false
IsSmallest now channels m (some x) =
    Has x.id x.voice m
    × (is_active now x.voice ≡ true)
    × (x.load ≡ load x.id channels)
    × ((id : ℕ) (v : VoiceServerDb)
        → Has id v m
        → is_active now v ≡ true
        → x.load ≤ load id channels)

module _ (now : ℕ) (channels : Map ChannelDb) where
  skip-IsSmallest :
      (i : ℕ) (w : VoiceServerDb) (m : Map VoiceServerDb) (o : Option Candidate)
      → is_active now w ≡ false
      → IsSmallest now channels m o
      → IsSmallest now channels ((i, w) ∷ m) o
  skip-IsSmallest i w m none off s = λ id v h. elim h [
    | inl (at, same) ↦ subst (λ x. is_active now x ≡ false) same off
    | inr h' ↦ s id v h'
  ]
  skip-IsSmallest i w m (some x) off (has, on, count, least) = (
    inr has,
    on,
    count,
    λ id v h a. elim h [ inl (at, same) ↦ cc (off, same, a) | inr h' ↦ least id v h' a ],
  )

  abbrev row : ℕ → VoiceServerDb → Candidate
  row i w = record { id = i; voice = w; load = load i channels }

  first-IsSmallest :
      (i : ℕ) (w : VoiceServerDb) (m : Map VoiceServerDb) (x : Candidate)
      → is_active now w ≡ true
      → load i channels ≤ x.load
      → IsSmallest now channels m (some x)
      → IsSmallest now channels ((i, w) ∷ m) (some (row i w))
  first-IsSmallest i w m x on le (has, on', count, least) = (
    inl (refl, refl),
    on,
    refl,
    λ id v h a. elim h [
      | inl (at, same) ↦ subst (λ k. load i channels ≤ load k channels) at (omega arith)
      | inr h' ↦ omega (arith, le, least id v h' a)
    ],
  )

  later-IsSmallest :
      (i : ℕ) (w : VoiceServerDb) (m : Map VoiceServerDb) (x : Candidate)
      → x.load ≤ load i channels
      → IsSmallest now channels m (some x)
      → IsSmallest now channels ((i, w) ∷ m) (some x)
  later-IsSmallest i w m x le (has, on, count, least) = (
    inr has,
    on,
    count,
    λ id v h a. elim h [
      | inl (at, same) ↦ subst (λ k. x.load ≤ load k channels) at le
      | inr h' ↦ least id v h' a
    ],
  )

  take-IsSmallest :
      (i : ℕ) (w : VoiceServerDb) (m : Map VoiceServerDb) (o : Option Candidate)
      → is_active now w ≡ true
      → IsSmallest now channels m o
      → IsSmallest now channels ((i, w) ∷ m) (lesser (row i w) o)
  take-IsSmallest i w m none on s = (
    inl (refl, refl),
    on,
    refl,
    λ id v h a. elim h [
      | inl (at, same) ↦ subst (λ x. load i channels ≤ load x channels) at (omega arith)
      | inr h' ↦ cc (s id v h', a)
    ],
  )
  take-IsSmallest i w m (some x) on s = elim (Bool-cases (leb (load i channels) x.load)) [
    | inl le ↦ rw (le) (first-IsSmallest i w m x on (leb→le (load i channels) x.load le) s)
    | inr gt ↦ rw (gt) (later-IsSmallest i w m x (ground (arith, gt)) s)
  ]

  smallest-IsSmallest :
      (m : Map VoiceServerDb) → IsSmallest now channels m (smallest now channels m)
  unfolding smallest
  smallest-IsSmallest [] = λ id v h. absurd h
  smallest-IsSmallest ((i, w) ∷ m) = elim (Bool-cases (is_active now w)) [
    | inl on ↦ rw (on) (take-IsSmallest i w m (smallest now channels m) on (smallest-IsSmallest m))
    | inr off ↦
        rw (off) (skip-IsSmallest i w m (smallest now channels m) off (smallest-IsSmallest m))
  ]

-- `get_smallest_load` gives an active voice server of the table with the number of channels that are
-- assigned to it, and no active one has fewer; it gives none just where no voice server is active.
pub get_smallest_load-IsSmallest :
    (now : ℕ) (t : Tables) → IsSmallest now t.channels t.voice_servers (get_smallest_load now t)
unfolding get_smallest_load
get_smallest_load-IsSmallest now t = smallest-IsSmallest now t.channels t.voice_servers
