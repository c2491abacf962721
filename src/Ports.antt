-- ===== src/Ports.antt =====
-- server/voice/core/src/ports.rs: the allocator of UDP ports.
-- A `PortRef` shares its `AtomicBool` with the allocator; here it keeps the index of that flag, and
-- dropping it writes through the index. `port` wraps as a `u16` of a release build does.
pub mod Flags
pub mod Ledger
pub mod Distinct
pub mod Restore
mod Examples
use voices.Common.{
  ℕ, zero, suc, ◌+◌, ◌%◌, ◌^◌, Bool, true, false, Option, none, some, List, [], ◌∷◌, length,
}

pub record Ports : Type 0 where
  pub start : ℕ
  pub state : List Bool

pub record PortRef : Type 0 where
  pub port : ℕ
  pub taken : ℕ

abbrev pub u16_mod : ℕ
u16_mod = 2 ^ 16

-- `(0..limit).map(|_| Arc::new(AtomicBool::new(true)))`
unfoldable pub all_free : ℕ → List Bool
all_free zero = []
all_free (suc n) = true ∷ all_free n

-- `Ports::new`; `bound` is the port that the system picks where `start` is 0.
unfoldable pub new : ℕ → ℕ → ℕ → Ports
unfolding all_free
new bound zero limit = record { start = bound; state = all_free limit }
new bound (suc start) limit = record { start = suc start; state = all_free limit }

-- The loop of `get` from index `i` on: `swap(false)` at each flag up to the first that was set.
unfoldable pub swap_first : ℕ → List Bool → Option ℕ × List Bool
swap_first i [] = (none, [])
swap_first i (true ∷ rest) = (some i, false ∷ rest)
swap_first i (false ∷ rest) = let (found, rest') = swap_first (suc i) rest in (found, false ∷ rest')

abbrev pub port_ref : ℕ → ℕ → PortRef
port_ref start i = record { port = (i % u16_mod + start) % u16_mod; taken = i }

abbrev pub option_ref : ℕ → Option ℕ → Option PortRef
option_ref start none = none
option_ref start (some i) = some (port_ref start i)

unfoldable pub get : Ports → Option PortRef × Ports
unfolding swap_first
get p =
    let (found, state) = swap_first 0 p.state in
    (option_ref p.start found, record p { state = state })

-- `taken.store(true)`
unfoldable pub store_true : ℕ → List Bool → List Bool
store_true i [] = []
store_true zero (b ∷ rest) = true ∷ rest
store_true (suc i) (b ∷ rest) = b ∷ store_true i rest

-- `Drop for PortRef`
unfoldable pub drop : PortRef → Ports → Ports
unfolding store_true
drop r p = record p { state = store_true r.taken p.state }

pub total : Ports → ℕ
total p = length p.state % u16_mod
