-- ===== src/Ports/Restore.antt =====
-- server/voice/core/src/ports.rs: a port that is taken and dropped at once leaves the allocator as it
-- was, and so does an attempt that finds none.
use voices.Common.{
  ℕ, zero, suc, ◌+◌, ◌≡◌, refl, ap, Bool, true, false, Option, none, some, List, [], ◌∷◌, arith,
}
use voices.Ports.{Ports, PortRef, swap_first, store_true, get, drop, option_ref}
use voices.Ports.Flags.{swap_first-none, swap_first-le}

store_true-swap_first :
    (i k : ℕ) (bs : List Bool)
    → (swap_first i bs).0 ≡ some (i + k)
    → store_true k (swap_first i bs).1 ≡ bs
unfolding swap_first store_true
store_true-swap_first i k [] h = refl
store_true-swap_first i zero (true ∷ bs) h = refl
store_true-swap_first i (suc k) (true ∷ bs) h = ground arith
store_true-swap_first i zero (false ∷ bs) h =
    ground (arith, swap_first-le (suc i) bs i (ground (arith, h)))
store_true-swap_first i (suc k) (false ∷ bs) h =
    ap (◌∷◌ false) (store_true-swap_first (suc i) k bs (ground (arith, h)))

no_ref : (start : ℕ) (o : Option ℕ) → option_ref start o ≡ none → o ≡ none
no_ref start none h = refl
no_ref start (some i) h = cc h

abbrev taken_of : Option PortRef → Option ℕ
taken_of none = none
taken_of (some r) = some r.taken

ref_of :
    (start : ℕ) (o : Option ℕ) (r : PortRef) → option_ref start o ≡ some r → o ≡ some (0 + r.taken)
ref_of start none r h = cc h
ref_of start (some i) r h = ground (arith, ap taken_of h)

pub get-none-same : (p : Ports) → (get p).0 ≡ none → (get p).1 ≡ p
unfolding get
get-none-same p h =
    ap (λ st. record p { state = st })
      (swap_first-none 0 p.state (no_ref p.start (swap_first 0 p.state).0 h))

pub drop-get : (p : Ports) (r : PortRef) → (get p).0 ≡ some r → drop r (get p).1 ≡ p
unfolding get drop
drop-get p r h =
    ap (λ st. record p { state = st })
      (store_true-swap_first 0 r.taken p.state (ref_of p.start (swap_first 0 p.state).0 r h))
