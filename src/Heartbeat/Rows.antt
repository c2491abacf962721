-- ===== src/Heartbeat/Rows.antt =====
-- server/channels/core/src/db_models/voice_server.rs: the row of one voice server among the others.
use voices.Common.{
  ℕ, ◌≤◌, ◌≡◌, Bool, false, Option, none, some, [], ◌∷◌, Map, lookup, insert, All, refl, ltb, ◌==◌,
  both_branches, Bool-cases, inl, inr, arith, ap, ◌∙◌, ==_iff,
}
use voices.Registry.{
  VoiceServerDb, ChannelDb, Tables, Candidate, retain, is_stale, assign_channel, assign_with,
  assign_to, assign_row, get_smallest_load, unassign, unassign_row, is_assigned,
}

-- No row under the id is newer than `last`.
abbrev pub IsOld : ℕ → ℕ → ℕ × VoiceServerDb → Type 0
IsOld id last e = e.0 ≡ id → e.1.last_seen ≤ last

abbrev pub AreOld : ℕ → ℕ → Map VoiceServerDb → Type 0
AreOld id last m = All (IsOld id last) m

module _ (id last : ℕ) where
  pub AreOld-later :
      (later : ℕ) (m : Map VoiceServerDb) → last ≤ later → AreOld id last m → AreOld id later m
  AreOld-later later [] h o = tt
  AreOld-later later ((k, v) ∷ m) h (o, os) = (λ e. omega (arith, o e), AreOld-later later m h os)

  pub retain-AreOld :
      (now : ℕ) (m : Map VoiceServerDb) → AreOld id last m → AreOld id last (retain now m)
  unfolding retain
  retain-AreOld now [] o = tt
  retain-AreOld now ((k, v) ∷ m) (o, os) =
      both_branches (AreOld id last) (is_stale now v) (retain-AreOld now m os)
        (o, retain-AreOld now m os)

  pub insert-AreOld :
      (k : ℕ) (v : VoiceServerDb) (m : Map VoiceServerDb)
      → IsOld id last (k, v)
      → AreOld id last m
      → AreOld id last (insert k v m)
  unfolding insert
  insert-AreOld k v [] n o = (n, tt)
  insert-AreOld k v ((j, w) ∷ m) n (o, os) =
      both_branches (AreOld id last) (ltb k j) (n, (o, os))
        (both_branches (AreOld id last) (k == j) (n, os) (o, insert-AreOld k v m n os))

  pub lookup-AreOld :
      (v : VoiceServerDb) (m : Map VoiceServerDb)
      → AreOld id last m
      → lookup id m ≡ some v
      → v.last_seen ≤ last
  unfolding lookup
  lookup-AreOld v [] o h = absurd (cc h)
  lookup-AreOld v ((k, w) ∷ m) (o, os) h = elim (Bool-cases (k == id)) [
    | inl e ↦
        let same : w ≡ v = cc (rw (e) at h) in
        omega (arith, o ((==_iff k id).0 e), ap (λ x. x.last_seen) same)
    | inr e ↦ lookup-AreOld v m os (rw (e) at h)
  ]

-- A cleanup keeps a row that is not stale.
pub lookup-retain :
    (id now : ℕ) (v : VoiceServerDb) (m : Map VoiceServerDb)
    → lookup id m ≡ some v
    → is_stale now v ≡ false
    → lookup id (retain now m) ≡ some v
unfolding lookup retain
lookup-retain id now v [] h f = absurd (cc h)
lookup-retain id now v ((k, w) ∷ m) h f = elim (Bool-cases (k == id)) [
  | inl e ↦
      let same : w ≡ v = cc (rw (e) at h) in
      let g : is_stale now w ≡ false = ap (is_stale now) same ∙ f in rw (g) (rw (e) (ap some same))
  | inr e ↦ elim (Bool-cases (is_stale now w)) [
    | inl g ↦ rw (g) (lookup-retain id now v m (rw (e) at h) f)
    | inr g ↦ rw (g) (rw (e) (lookup-retain id now v m (rw (e) at h) f))
  ]
]

-- Assignments and releases do not touch the voice servers.
assign_row-voice_servers :
    (now cid sid : ℕ) (reassign : Bool) (o : Option ChannelDb) (t : Tables)
    → (assign_row now cid sid reassign o t).voice_servers ≡ t.voice_servers
unfolding assign_row
assign_row-voice_servers now cid sid reassign none t = refl
assign_row-voice_servers now cid sid reassign (some c) t = refl

pub assign-voice_servers :
    (now cid : ℕ) (reassign : Bool) (t : Tables)
    → (assign_channel now cid reassign t).1.voice_servers ≡ t.voice_servers
unfolding assign_channel assign_with assign_to
assign-voice_servers now cid reassign t = chosen (get_smallest_load now t)
  where
    chosen :
        (o : Option Candidate)
        → (assign_with now cid reassign o t).1.voice_servers ≡ t.voice_servers
    chosen none = refl
    chosen (some v) = assign_row-voice_servers now cid v.id reassign (lookup cid t.channels) t

pub unassign-voice_servers :
    (now cid sid : ℕ) (t : Tables) → (unassign now cid sid t).voice_servers ≡ t.voice_servers
unfolding unassign unassign_row
unassign-voice_servers now cid sid t = released (lookup cid t.channels)
  where
    released :
        (o : Option ChannelDb) → (unassign_row now cid sid o t).voice_servers ≡ t.voice_servers
    released none = refl
    released (some c) =
        both_branches (λ (u : Tables). u.voice_servers ≡ t.voice_servers)
          (is_assigned sid c.assigned_to) refl refl
