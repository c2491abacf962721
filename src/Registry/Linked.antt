-- ===== src/Registry/Linked.antt =====
-- server/channels/core/src: the channels refer to voice servers that the table has.
use voices.Common.{
  subst, ℕ, ◌≡◌, ◌≢◌, Bool, true, false, Option, none, some, List, [], ◌∷◌, String, Map, lookup,
  refl, insert_cases, lookup-insert, ◌==◌, ap, sym, ◌∙◌, Bool-cases, Option-cases, inl, inr, arith,
}
use voices.Registry.{
  is_assigned, seen, ChannelDb, VoiceServerDb, Tables, Candidate, assigned, assign_row, assign_to,
  assign_with, assign_channel, get_smallest_load, set_assigned_to, set_null, set_nulls, retain,
  cleanup_stale, unassign, unassign_row, register_voice_server, create_or_update,
}
use voices.Registry.Load.{Has, IsSmallest, get_smallest_load-IsSmallest}
use voices.Registry.Assigned.{target, assigned-target, set_assigned_to-assigned}

-- Each `assigned_to` is the id of a voice server.
abbrev pub IsLinked : Tables → Type 0
IsLinked t =
    (k : ℕ) (c : ChannelDb) (v : ℕ)
    → lookup k t.channels ≡ some c
    → c.assigned_to ≡ some v
    → lookup v t.voice_servers ≢ none

pub data Op : Type 0 where
  register : ℕ → String → Op
  clean : Op
  assign : ℕ → Bool → Op
  release : ℕ → ℕ → Op

unfoldable pub step : Tables → ℕ × Op → Tables
unfolding register_voice_server cleanup_stale assign_channel unassign
step t (now, register id host_url) = (register_voice_server now id host_url t).1
step t (now, clean) = cleanup_stale now t
step t (now, assign cid reassign) = (assign_channel now cid reassign t).1
step t (now, release cid sid) = unassign now cid sid t

unfoldable pub run : Tables → List (ℕ × Op) → Tables
run t [] = t
run t (o ∷ os) = run (step t o) os

Has-lookup : (id : ℕ) (v : VoiceServerDb) (m : Map VoiceServerDb) → Has id v m → lookup id m ≢ none
unfolding lookup
Has-lookup id v [] h e = absurd h
Has-lookup id v ((i, w) ∷ m) (inl (at, same)) e = ground (arith, at, e)
Has-lookup id v ((i, w) ∷ m) (inr h) e = elim (Bool-cases (i == id)) [
  | inl b ↦ cc (rw (b) at e)
  | inr b ↦ Has-lookup id v m h (rw (b) at e)
]

set_null-lookup :
    (left : Map VoiceServerDb) (o : Option ℕ) (v : ℕ)
    → set_null left o ≡ some v
    → lookup v left ≢ none
set_null-lookup left none v e = cc e
set_null-lookup left (some u) v e = elim (Option-cases (lookup u left)) [
  | inl n ↦ cc (rw (n) at e)
  | inr (w, f) ↦ λ g. cc (rw (f) at e, f, g)
]

same_value : {A : Type 0} {a b : A} → some a ≡ some b → a ≡ b
same_value h = cc h

set_nulls-row :
    (now k : ℕ) (left : Map VoiceServerDb) (m : Map ChannelDb) (d : ChannelDb)
    → lookup k (set_nulls now left m) ≡ some d
    → (c : ChannelDb) × (d.assigned_to ≡ set_null left c.assigned_to)
unfolding lookup set_nulls
set_nulls-row now k left [] d e = cc e
set_nulls-row now k left ((i, c) ∷ m) d e = elim (Bool-cases (i == k)) [
  | inl b ↦ (
    c,
    ap (λ x. x.assigned_to) (sym (same_value (rw (b) at e)))
        ∙ set_assigned_to-assigned now (set_null left c.assigned_to) c,
  )
  | inr b ↦ set_nulls-row now k left m d (rw (b) at e)
]

chosen :
    (t : Tables) (reassign : Bool) (x : Candidate) (old : Option ℕ) (v : ℕ)
    → ((u : ℕ) → old ≡ some u → lookup u t.voice_servers ≢ none)
    → lookup x.id t.voice_servers ≢ none
    → target reassign old x.id ≡ v
    → lookup v t.voice_servers ≢ none
chosen t false x (some u) v known new e =
    subst (λ k. lookup k t.voice_servers ≢ none) e (known u refl)
chosen t false x none v known new e = subst (λ k. lookup k t.voice_servers ≢ none) e new
chosen t true x none v known new e = subst (λ k. lookup k t.voice_servers ≢ none) e new
chosen t true x (some u) v known new e = subst (λ k. lookup k t.voice_servers ≢ none) e new

row-IsLinked :
    (now cid : ℕ) (reassign : Bool) (t : Tables) (x : Candidate)
    → lookup x.id t.voice_servers ≢ none
    → IsLinked t
    → (o : Option ChannelDb) → lookup cid t.channels ≡ o
    → IsLinked (assign_row now cid x.id reassign o t)
unfolding assign_row
row-IsLinked now cid reassign t x new l none e = l
row-IsLinked now cid reassign t x new l (some c) e = λ k d v f g.
    elim (insert_cases cid k t.channels (assigned now x.id reassign c) d f) [
      | inl (at, same) ↦
          chosen t reassign x c.assigned_to v (λ u h. l cid c u e h) new
            (same_value (
              sym (assigned-target now x.id reassign c c.assigned_to refl)
              ∙ ap (λ y. y.assigned_to) same
              ∙ g))
      | inr (ne, f') ↦ l k d v f' g
    ]

assign-IsLinked :
    (now cid : ℕ) (reassign : Bool) (t : Tables) (o : Option Candidate)
    → IsSmallest now t.channels t.voice_servers o
    → IsLinked t
    → IsLinked (assign_with now cid reassign o t).1
unfolding assign_with assign_to
assign-IsLinked now cid reassign t none s l = l
assign-IsLinked now cid reassign t (some x) (has, on, count, least) l =
    row-IsLinked now cid reassign t x (Has-lookup x.id x.voice t.voice_servers has) l
      (lookup cid t.channels) refl

release-IsLinked :
    (now cid sid : ℕ) (t : Tables)
    → IsLinked t
    → (o : Option ChannelDb) → lookup cid t.channels ≡ o
    → IsLinked (unassign_row now cid sid o t)
unfolding unassign_row
release-IsLinked now cid sid t l none e = l
release-IsLinked now cid sid t l (some c) e = elim (Bool-cases (is_assigned sid c.assigned_to)) [
  | inl b ↦ rw (b) (λ k d v f g.
      elim (insert_cases cid k t.channels (set_assigned_to now none c) d f) [
        | inl (at, same) ↦ cc (set_assigned_to-assigned now none c, ap (λ y. y.assigned_to) same, g)
        | inr (ne, f') ↦ l k d v f' g
      ])
  | inr b ↦ rw (b) l
]

step-IsLinked : (t : Tables) (o : ℕ × Op) → IsLinked t → IsLinked (step t o)
unfolding step register_voice_server create_or_update cleanup_stale assign_channel unassign
step-IsLinked t (now, register id host_url) l = λ k c v f g. ground (
  arith,
  l k c v f g,
  lookup-insert id v (seen now host_url (lookup id t.voice_servers)) t.voice_servers,
)
step-IsLinked t (now, clean) l = λ k c v f g.
    let left : Map VoiceServerDb = retain now t.voice_servers in
    let (d, e) = set_nulls-row now k left t.channels c f in
    set_null-lookup left d.assigned_to v (sym e ∙ g)
step-IsLinked t (now, assign cid reassign) l =
    assign-IsLinked now cid reassign t (get_smallest_load now t)
      (get_smallest_load-IsSmallest now t) l
step-IsLinked t (now, release cid sid) l =
    release-IsLinked now cid sid t l (lookup cid t.channels) refl

-- Whatever registrations, cleanups, assignments and releases follow at whatever times, a channel that
-- is assigned is assigned to a voice server that the table has, if this holds at the start.
pub run-IsLinked : (t : Tables) (os : List (ℕ × Op)) → IsLinked t → IsLinked (run t os)
unfolding run
run-IsLinked t [] l = l
run-IsLinked t (o ∷ os) l = run-IsLinked (step t o) os (step-IsLinked t o l)
