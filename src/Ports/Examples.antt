-- ===== src/Ports/Examples.antt =====
-- The allocator of server/voice/core/src/ports.rs on small inputs.
use voices.Common.{◌≡◌, refl, some, List, [], ◌∷◌, arith, true, false}
use voices.Ports.{new, get, drop}
use voices.Ports.Ledger.{Op, allocate, drop_at, step, run, fresh, IsBalanced, run-IsBalanced}
use voices.Ports.Distinct.{Distinct, run-Distinct}

-- The unit test `test_ports`: two ports are taken, and the first is given back.
abbrev history : List Op
history = allocate ∷ allocate ∷ drop_at 1 ∷ []

history_flags : (run (fresh 40000 0 2) history).ports.state ≡ true ∷ false ∷ []
unfolding run step get drop new
history_flags = refl

-- The numbers of the ports wrap behind 65535.
wrapping_port : (get (get (new 0 65535 2)).1).0 ≡ some (record { port = 0; taken = 1 })
unfolding get new
wrapping_port = refl

run-IsBalanced_example : IsBalanced (run (fresh 40000 0 2) history)
run-IsBalanced_example = run-IsBalanced 40000 0 2 history

run-Distinct_example : Distinct (run (fresh 0 65535 2) (allocate ∷ allocate ∷ [])).refs
run-Distinct_example = run-Distinct 0 65535 2 (allocate ∷ allocate ∷ []) (omega arith)
