-- ===== src/Members/Ledger.antt =====
-- Counts over what happens to the members of a channel, and over the calls that wait for Redis.
use voices.Common.{
  ℕ, ◌+◌, ◌≤◌, ◌≡◌, ap, some, List, [], ◌∷◌, ◌++◌, Map, lookup, insert, remove, ◌==◌, if◌then◌else◌,
  arith, Bool-cases, inl, inr,
}
use voices.Presence.{ClientInfo}
use voices.Members.{
  Command, write_member, publish_joined, publish_left, delete_member, Effect, wrote, deleted,
  joined, left,
}

-- One, for the client with the id.
abbrev pub hit : ℕ → ClientInfo → ℕ
hit id c = if c.client_id == id then 1 else 0

unfoldable pub count : (Effect → ℕ) → List Effect → ℕ
count w [] = 0
count w (e ∷ es) = w e + count w es

pub count-++ : (w : Effect → ℕ) (xs ys : List Effect) → count w (xs ++ ys) ≡ count w xs + count w ys
unfolding count
count-++ w [] ys = omega arith
count-++ w (x ∷ xs) ys = omega (arith, count-++ w xs ys)

abbrev pub write_of : ℕ → Effect → ℕ
write_of id (wrote c) = hit id c
write_of id _ = 0

abbrev pub deletion_of : ℕ → Effect → ℕ
deletion_of id (deleted c) = hit id c
deletion_of id _ = 0

abbrev pub arrival_of : ℕ → Effect → ℕ
arrival_of id (joined c) = hit id c
arrival_of id _ = 0

abbrev pub departure_of : ℕ → Effect → ℕ
departure_of id (left c) = hit id c
departure_of id _ = 0

-- How often the field of a client was written and deleted, and how often it was published that it
-- joined and left.
abbrev pub writes : ℕ → List Effect → ℕ
writes id = count (write_of id)

abbrev pub deletions : ℕ → List Effect → ℕ
deletions id = count (deletion_of id)

abbrev pub arrivals : ℕ → List Effect → ℕ
arrivals id = count (arrival_of id)

abbrev pub departures : ℕ → List Effect → ℕ
departures id = count (departure_of id)

-- What the calls that wait still add to a count.
abbrev pub to_publish : ℕ → Command → ℕ
to_publish id (write_member c) = 0
to_publish id (publish_joined c) = hit id c
to_publish id (publish_left c) = 0
to_publish id (delete_member c) = 0

abbrev pub to_delete : ℕ → Command → ℕ
to_delete id (write_member c) = 0
to_delete id (publish_joined c) = 0
to_delete id (publish_left c) = 0
to_delete id (delete_member c) = hit id c

module _ (w : Command → ℕ) where
  unfoldable pub total : Map Command → ℕ
  total [] = 0
  total ((k, x) ∷ m) = w x + total m

  total-remove_le : (k : ℕ) (m : Map Command) → total (remove k m) ≤ total m
  unfolding total remove
  total-remove_le k [] = omega arith
  total-remove_le k ((j, x) ∷ m) = ground (arith, total-remove_le k m)

  pub total-remove :
      (k : ℕ) (x : Command) (m : Map Command)
      → lookup k m ≡ some x
      → total (remove k m) + w x ≤ total m
  unfolding total remove lookup
  total-remove k x [] e = cc e
  total-remove k x ((j, y) ∷ m) e = elim (Bool-cases (j == k)) [
    | inl h ↦
        let same : y ≡ x = cc (rw (h) at e) in
        rw (h) (omega (arith, ap w same, total-remove_le k m))
    | inr h ↦ rw (h) (omega (arith, total-remove k x m (rw (h) at e)))
  ]

  pub total-insert : (k : ℕ) (x : Command) (m : Map Command) → total (insert k x m) ≤ total m + w x
  unfolding total insert
  total-insert k x [] = omega arith
  total-insert k x ((j, y) ∷ m) = ground (arith, total-insert k x m)
