-- ===== src/Ports/Distinct.antt =====
-- server/voice/core/src/ports.rs: no two channels of a server listen on one port.
use voices.Common.{
  ℕ, zero, suc, ◌≡◌, ◌≤◌, ◌<◌, ◌≢◌, Bool, some, Option-cases, inl, inr, List, [], ◌∷◌, arith,
  length, All, refl,
}
use voices.Ports.{PortRef, port_ref, get, swap_first, drop}
use voices.Ports.Flags.{cleared, cleared-le}
use voices.Ports.Ledger.{
  Leases, Op, allocate, drop_at, step, run, fresh, held, pick, run-IsBalanced, length-run,
  length-new,
}

-- A reference has the port of its flag.
abbrev IsPort : ℕ → PortRef → Type 0
IsPort start r = r.port ≡ (port_ref start r.taken).port

-- No two references have one port.
unfoldable pub Distinct : List PortRef → Type 0
Distinct [] = Unit
Distinct (r ∷ rs) = All (λ q. q.port ≢ r.port) rs × Distinct rs

module _ (P : PortRef → Type 0) where
  All-pick :
      (i : ℕ) (rs : List PortRef) (r : PortRef) (rs' : List PortRef)
      → pick i rs ≡ some (r, rs')
      → All P rs
      → All P rs'
  unfolding pick
  All-pick i [] r rs' h a = cc
  All-pick zero (q ∷ rs) r rs' h a = ground (arith, a.1)
  All-pick (suc i) (q ∷ rs) r rs' h a = elim (Option-cases (pick i rs)) [
    | inl e ↦ ground arith
    | inr ((s, ss), e) ↦ ground (arith, All-pick i rs s ss e a.1)
  ]

record HasPorts (l : Leases) : Type 0 where
  ports : All (IsPort l.ports.start) l.refs

step-HasPorts : (l : Leases) (o : Op) → HasPorts l → HasPorts (step l o)
unfolding step get drop
step-HasPorts l allocate h = elim (Option-cases (swap_first 0 l.ports.state).0) [
  | inl e ↦ record { ports = ground (arith, h.ports) }
  | inr (k, e) ↦ record { ports = ground (arith, h.ports) }
]
step-HasPorts l (drop_at i) h = elim (Option-cases (pick i l.refs)) [
  | inl e ↦ rw (e, step) h
  | inr ((r, rs), e) ↦ rw (e, step) (record { ports = All-pick _ i l.refs r rs e h.ports })
]

run-HasPorts : (l : Leases) (os : List Op) → HasPorts l → HasPorts (run l os)
unfolding run
run-HasPorts l [] h = h
run-HasPorts l (o ∷ os) h = run-HasPorts (step l o) os (step-HasPorts l o h)

cleared_beyond : (i : ℕ) (bs : List Bool) → length bs ≤ i → cleared i bs ≡ 0
unfolding cleared
cleared_beyond i [] h = refl
cleared_beyond zero (b ∷ bs) h = absurd (omega arith)
cleared_beyond (suc i) (b ∷ bs) h = cleared_beyond i bs (omega arith)

held_none : (i : ℕ) (rs : List PortRef) → held i rs ≡ 0 → All (λ q. q.taken ≢ i) rs
unfolding held
held_none i [] h = tt
held_none i (r ∷ rs) h = (ground arith, held_none i rs (ground arith))

held_below :
    (n : ℕ) (rs : List PortRef) → ((i : ℕ) → n ≤ i → held i rs ≡ 0) → All (λ q. q.taken < n) rs
unfolding held
held_below n [] h = tt
held_below n (r ∷ rs) h =
    (ground (arith, h r.taken), held_below n rs (λ i b. ground (arith, h i b)))

ports_differ :
    (start : ℕ) (r : PortRef) (rs : List PortRef)
    → IsPort start r
    → r.taken < 65536
    → All (IsPort start) rs
    → All (λ q. q.taken < 65536) rs
    → All (λ q. q.taken ≢ r.taken) rs
    → All (λ q. q.port ≢ r.port) rs
ports_differ start r [] p b ps bs ne = tt
ports_differ start r (q ∷ rs) p b ps bs ne =
    (omega (arith, ps.0, bs.0, ne.0), ports_differ start r rs p b ps.1 bs.1 ne.1)

refs-Distinct :
    (start : ℕ) (rs : List PortRef)
    → All (IsPort start) rs
    → All (λ q. q.taken < 65536) rs
    → ((i : ℕ) → held i rs ≤ 1)
    → Distinct rs
unfolding Distinct held
refs-Distinct start [] ps bs h = tt
refs-Distinct start (r ∷ rs) ps bs h = (
  ports_differ start r rs ps.0 bs.0 ps.1 bs.1 (held_none r.taken rs (ground (arith, h r.taken))),
  refs-Distinct start rs ps.1 bs.1 (λ i. ground (arith, h i)),
)

-- With at most 65535 ports, no two references that are alive after any history of allocations and
-- drops have the same port, also where the port numbers wrap.
pub run-Distinct :
    (bound start limit : ℕ) (os : List Op)
    → limit < 65536
    → Distinct (run (fresh bound start limit) os).refs
run-Distinct bound start limit os small =
    refs-Distinct l.ports.start l.refs
      (run-HasPorts (fresh bound start limit) os (record { ports = tt })).ports
      (held_below 65536 l.refs λ i b. omega (
        arith,
        balanced i,
        cleared_beyond i l.ports.state (omega (arith, b, n, small, length-new bound start limit)),
      ))
      (λ i. omega (arith, balanced i, cleared-le i l.ports.state))
  where
    l : Leases
    l = run (fresh bound start limit) os

    balanced : (i : ℕ) → held i l.refs ≡ cleared i l.ports.state
    balanced = (run-IsBalanced bound start limit os).owned

    n : length l.ports.state ≡ length (fresh bound start limit).ports.state
    n = length-run (fresh bound start limit) os
