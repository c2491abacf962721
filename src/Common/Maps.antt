-- ===== src/Common/Maps.antt =====
-- Maps with numeric keys, as lists of entries in ascending order of their keys: a `BTreeMap`, in the
-- order in which it is iterated, and a `HashMap`, of whose order nothing is claimed.
use Prim.Native.Nat.{ℕ}
use mathlib.Core.Path.{◌≡◌, refl, sym, ◌∙◌}
use mathlib.Core.Logic.{◌≢◌, ◌⊎◌, inl, inr}
use native.Nat.{ℕᴺ_discrete}
use mathlib.Core.Option.{Option, none, some}
use mathlib.Core.List.{List, [], ◌∷◌, map}
use native.Mathlib.Omega.{arith}
use voices.Common.Tests.{ltb, ◌==◌, if◌then◌else◌}

abbrev pub Map {ℓ} : Type ℓ → Type ℓ
Map V = List (ℕ × V)

module _ {ℓ} {V : Type ℓ} where
  unfoldable pub lookup : ℕ → Map V → Option V
  lookup k [] = none
  lookup k ((j, v) ∷ m) = if j == k then some v else lookup k m

  unfoldable pub insert : ℕ → V → Map V → Map V
  insert k v [] = (k, v) ∷ []
  insert k v ((j, w) ∷ m) =
      let rest = insert k v m in
      if ltb k j then (k, v) ∷ (j, w) ∷ m else if k == j then (k, v) ∷ m else (j, w) ∷ rest

  unfoldable pub remove : ℕ → Map V → Map V
  remove k [] = []
  remove k ((j, v) ∷ m) = let rest = remove k m in if j == k then rest else (j, v) ∷ rest

  abbrev pub keys : Map V → List ℕ
  keys = map λ e. e.0

  abbrev pub values : Map V → List V
  values = map λ e. e.1

  pub lookup-insert :
      (key other : ℕ) (held : V) (entries : Map V)
      → lookup other (insert key held entries)
        ≡ (if key == other then some held else lookup other entries)
  unfolding lookup insert
  lookup-insert key other held [] = refl
  lookup-insert key other held ((first, old) ∷ rest) =
      ground (arith, lookup-insert key other held rest)

  pub lookup-remove :
      (k j : ℕ) (m : Map V) → lookup j (remove k m) ≡ (if k == j then none else lookup j m)
  unfolding lookup remove
  lookup-remove k j [] = ground arith
  lookup-remove k j ((i, w) ∷ m) = ground (arith, lookup-remove k j m)

pub ruleset map_laws = (lookup-insert, lookup-remove)

module _ {V : Type 0} (k j : ℕ) (m : Map V) where
  pub insert_other : (v : V) → k ≢ j → lookup j (insert k v m) ≡ lookup j m
  insert_other v ne = ground (arith, lookup-insert k j v m)

  pub insert_same : (v : V) → k ≡ j → lookup j (insert k v m) ≡ some v
  insert_same v e = ground (arith, lookup-insert k j v m)

  -- An entry after an insertion is the new one, or one from before under another key.
  pub insert_cases :
      (v w : V)
      → lookup j (insert k v m) ≡ some w
      → ((k ≡ j) × (v ≡ w)) ⊎ ((k ≢ j) × (lookup j m ≡ some w))
  insert_cases v w h = elim (ℕᴺ_discrete k j) [
    | yes e ↦ inl (e, cc (insert_same v e, h))
    | no ne ↦ inr (ne, sym (insert_other v ne) ∙ h)
  ]

  pub remove_other : k ≢ j → lookup j (remove k m) ≡ lookup j m
  remove_other ne = ground (arith, lookup-remove k j m)

  -- An entry after a removal is one from before under another key.
  pub remove_cases : (w : V) → lookup j (remove k m) ≡ some w → (k ≢ j) × (lookup j m ≡ some w)
  remove_cases w h = elim (ℕᴺ_discrete k j) [
    | yes e ↦ ground (arith, lookup-remove k j m, h)
    | no ne ↦ (ne, sym (remove_other ne) ∙ h)
  ]
