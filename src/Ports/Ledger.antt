-- ===== src/Ports/Ledger.antt =====
-- server/voice/core/src/ports.rs over a history of allocations and drops: the references that are
-- alive account for every flag of the allocator.
use voices.Common.{
  ℕ, zero, suc, ◌+◌, ◌≡◌, ◌↔◌, refl, ap, ◌∙◌, Bool, Option, none, some, Option-cases, List, [], ◌∷◌,
  inl, inr, arith, length, ◌==◌, if◌then◌else◌,
}
use voices.Ports.Flags.{
  cleared, free, cleared-le, swap_first-none, swap_first-free, swap_first-count, length-swap_first,
  cleared-swap_first, cleared-store_true, free-store_true, length-store_true, free-all_free,
  cleared-all_free, length-all_free,
}
use voices.Ports.{Ports, PortRef, new, swap_first, get, drop}

-- The allocator with the references that are alive, newest first.
pub record Leases : Type 0 where
  pub ports : Ports
  pub refs : List PortRef

pub data Op : Type 0 where
  allocate : Op
  drop_at : ℕ → Op

abbrev grant : Option PortRef → List PortRef → List PortRef
grant none refs = refs
grant (some r) refs = r ∷ refs

-- The reference at a place of the list and the others.
unfoldable pub pick : ℕ → List PortRef → Option (PortRef × List PortRef)
pick i [] = none
pick zero (r ∷ rs) = some (r, rs)
pick (suc i) (r ∷ rs) = elim (pick i rs) [ none ↦ none | some (q, qs) ↦ some (q, r ∷ qs) ]

abbrev release : Leases → Option (PortRef × List PortRef) → Leases
release l none = l
release l (some (r, rs)) = record { ports = drop r l.ports; refs = rs }

unfoldable pub step : Leases → Op → Leases
unfolding pick
step l allocate = let (r, ports) = get l.ports in record { ports = ports; refs = grant r l.refs }
step l (drop_at i) = release l (pick i l.refs)

unfoldable pub run : Leases → List Op → Leases
run l [] = l
run l (o ∷ os) = run (step l o) os

abbrev pub fresh : ℕ → ℕ → ℕ → Leases
fresh bound start limit = record { ports = new bound start limit; refs = [] }

-- How many live references stand for flag `i`.
unfoldable pub held : ℕ → List PortRef → ℕ
held i [] = 0
held i (r ∷ rs) = (if r.taken == i then 1 else 0) + held i rs

-- Each flag is cleared exactly while one live reference stands for it, and the flags that are set
-- make up the rest.
pub record IsBalanced (l : Leases) : Type 0 where
  pub owned : (i : ℕ) → held i l.refs ≡ cleared i l.ports.state
  pub counted : free l.ports.state + length l.refs ≡ length l.ports.state

held-pick :
    (i j : ℕ) (rs : List PortRef) (r : PortRef) (rs' : List PortRef)
    → pick i rs ≡ some (r, rs')
    → held j rs ≡ (if r.taken == j then 1 else 0) + held j rs'
unfolding pick held
held-pick i j [] r rs' h = ground arith
held-pick zero j (q ∷ rs) r rs' h = ground arith
held-pick (suc i) j (q ∷ rs) r rs' h = elim (Option-cases (pick i rs)) [
  | inl e ↦ ground arith
  | inr ((s, ss), e) ↦ ground (arith, held-pick i j rs s ss e)
]

length-pick :
    (i : ℕ) (rs : List PortRef) (r : PortRef) (rs' : List PortRef)
    → pick i rs ≡ some (r, rs')
    → length rs ≡ suc (length rs')
unfolding pick
length-pick i [] r rs' h = ground arith
length-pick zero (q ∷ rs) r rs' h = ground arith
length-pick (suc i) (q ∷ rs) r rs' h = elim (Option-cases (pick i rs)) [
  | inl e ↦ ground arith
  | inr ((s, ss), e) ↦ ground (arith, length-pick i rs s ss e)
]

allocate-IsBalanced : (l : Leases) → IsBalanced l → IsBalanced (step l allocate)
unfolding step get held
allocate-IsBalanced l b = elim (Option-cases (swap_first 0 l.ports.state).0) [
  | inl e ↦ record {
    owned = λ i. ground (arith, b.owned i, ap (cleared i) (swap_first-none 0 l.ports.state e));
    counted = ground (
      arith,
      b.counted,
      ap free (swap_first-none 0 l.ports.state e),
      length-swap_first 0 l.ports.state,
    );
  }
  | inr (k, e) ↦ record {
    owned = λ i. ground (arith, b.owned i, cleared-swap_first 0 l.ports.state k i e);
    counted =
        ground (
          arith,
          b.counted,
          swap_first-count 0 l.ports.state k e,
          length-swap_first 0 l.ports.state,
        );
  }
]

drop-IsBalanced : (l : Leases) (i : ℕ) → IsBalanced l → IsBalanced (step l (drop_at i))
unfolding step drop
drop-IsBalanced l i b = elim (Option-cases (pick i l.refs)) [
  | inl e ↦ rw (e, step) b
  | inr ((r, rs), e) ↦
      rw (e, step)
        (record {
          owned = λ j. ground (
            arith,
            b.owned j,
            b.owned r.taken,
            held-pick i j l.refs r rs e,
            held-pick i r.taken l.refs r rs e,
            cleared-le r.taken l.ports.state,
            cleared-store_true r.taken j l.ports.state,
          );
          counted = ground (
            arith,
            b.counted,
            b.owned r.taken,
            held-pick i r.taken l.refs r rs e,
            length-pick i l.refs r rs e,
            cleared-le r.taken l.ports.state,
            free-store_true r.taken l.ports.state,
            length-store_true r.taken l.ports.state,
          );
        })
]

step-IsBalanced : (l : Leases) (o : Op) → IsBalanced l → IsBalanced (step l o)
step-IsBalanced l allocate b = allocate-IsBalanced l b
step-IsBalanced l (drop_at i) b = drop-IsBalanced l i b

run_from-IsBalanced : (l : Leases) (os : List Op) → IsBalanced l → IsBalanced (run l os)
unfolding run
run_from-IsBalanced l [] b = b
run_from-IsBalanced l (o ∷ os) b = run_from-IsBalanced (step l o) os (step-IsBalanced l o b)

new-IsBalanced : (bound start limit : ℕ) → IsBalanced (fresh bound start limit)
unfolding new held
new-IsBalanced bound zero limit = record {
  owned = λ i. cleared-all_free i limit;
  counted = omega (arith, free-all_free limit);
}
new-IsBalanced bound (suc start) limit = record {
  owned = λ i. cleared-all_free i limit;
  counted = omega (arith, free-all_free limit);
}

-- After any history of allocations and drops on a new allocator, a flag is cleared exactly while one
-- live reference stands for it (and never two), and the set flags and the live references together
-- are as many as the flags.
pub run-IsBalanced :
    (bound start limit : ℕ) (os : List Op) → IsBalanced (run (fresh bound start limit) os)
run-IsBalanced bound start limit os = run_from-IsBalanced _ os (new-IsBalanced bound start limit)

length-step : (l : Leases) (o : Op) → length (step l o).ports.state ≡ length l.ports.state
unfolding step get drop
length-step l allocate = length-swap_first 0 l.ports.state
length-step l (drop_at i) = elim (Option-cases (pick i l.refs)) [
  | inl e ↦ rw (e, step)
  | inr ((r, rs), e) ↦ rw (e, step) (length-store_true r.taken l.ports.state)
]

pub length-run : (l : Leases) (os : List Op) → length (run l os).ports.state ≡ length l.ports.state
unfolding run
length-run l [] = refl
length-run l (o ∷ os) = length-run (step l o) os ∙ length-step l o

pub length-new : (bound start limit : ℕ) → length (new bound start limit).state ≡ limit
unfolding new
length-new bound zero limit = length-all_free limit
length-new bound (suc start) limit = length-all_free limit

-- `get` fails exactly when as many references are alive as the allocator has ports.
pub get-none_iff :
    (bound start limit : ℕ) (os : List Op)
    → ((get (run (fresh bound start limit) os).ports).0 ≡ none)
      ↔ (length (run (fresh bound start limit) os).refs ≡ limit)
unfolding get
get-none_iff bound start limit os = (
  λ h.
      omega (
        arith,
        b.counted,
        n,
        (swap_first-free 0 bs).0 (ground arith),
        length-new bound start limit,
      ),
  λ h.
      ground (
        arith,
        (swap_first-free 0 bs).1 (omega (arith, b.counted, n, length-new bound start limit)),
      ),
)
  where
    bs : List Bool
    bs = (run (fresh bound start limit) os).ports.state

    b : IsBalanced (run (fresh bound start limit) os)
    b = run-IsBalanced bound start limit os

    n : length bs ≡ length (new bound start limit).state
    n = length-run (fresh bound start limit) os
