-- ===== src/Ports/Flags.antt =====
-- server/voice/core/src/ports.rs: what a swap and a store do to the flags of the allocator.
use voices.Common.{
  ℕ, zero, suc, ◌+◌, ◌≡◌, ◌↔◌, refl, ap, Bool, true, false, none, some, List, [], ◌∷◌, arith,
  length, ◌==◌, if◌then◌else◌, ◌≤◌,
}
use voices.Ports.{all_free, swap_first, store_true}

-- 1 where flag `i` is cleared, 0 where it is set or missing.
unfoldable pub cleared : ℕ → List Bool → ℕ
cleared i [] = 0
cleared zero (true ∷ bs) = 0
cleared zero (false ∷ bs) = 1
cleared (suc i) (b ∷ bs) = cleared i bs

unfoldable pub free : List Bool → ℕ
free [] = 0
free (true ∷ bs) = suc (free bs)
free (false ∷ bs) = free bs

pub swap_first-none :
    (i : ℕ) (bs : List Bool) → (swap_first i bs).0 ≡ none → (swap_first i bs).1 ≡ bs
unfolding swap_first
swap_first-none i [] h = refl
swap_first-none i (true ∷ bs) h = ground arith
swap_first-none i (false ∷ bs) h = ap (◌∷◌ false) (swap_first-none (suc i) bs h)

pub swap_first-free : (i : ℕ) (bs : List Bool) → ((swap_first i bs).0 ≡ none) ↔ (free bs ≡ 0)
unfolding swap_first free
swap_first-free i [] = ground arith
swap_first-free i (true ∷ bs) = ground arith
swap_first-free i (false ∷ bs) = swap_first-free (suc i) bs

pub swap_first-le : (i : ℕ) (bs : List Bool) (k : ℕ) → (swap_first i bs).0 ≡ some k → i ≤ k
unfolding swap_first
swap_first-le i [] k h = ground arith
swap_first-le i (true ∷ bs) k h = ground arith
swap_first-le i (false ∷ bs) k h = omega (arith, swap_first-le (suc i) bs k h)

pub swap_first-count :
    (i : ℕ) (bs : List Bool) (k : ℕ)
    → (swap_first i bs).0 ≡ some k
    → free bs ≡ suc (free (swap_first i bs).1)
unfolding swap_first free
swap_first-count i [] k h = ground arith
swap_first-count i (true ∷ bs) k h = ground arith
swap_first-count i (false ∷ bs) k h = swap_first-count (suc i) bs k h

pub length-swap_first : (i : ℕ) (bs : List Bool) → length (swap_first i bs).1 ≡ length bs
unfolding swap_first
length-swap_first i [] = refl
length-swap_first i (true ∷ bs) = refl
length-swap_first i (false ∷ bs) = ap suc (length-swap_first (suc i) bs)

pub cleared-swap_first :
    (i : ℕ) (bs : List Bool) (k j : ℕ)
    → (swap_first i bs).0 ≡ some k
    → cleared j (swap_first i bs).1 ≡ (if k == i + j then 1 else 0) + cleared j bs
unfolding swap_first cleared
cleared-swap_first i [] k j h = ground arith
cleared-swap_first i (true ∷ bs) k zero h = ground arith
cleared-swap_first i (true ∷ bs) k (suc j) h = ground arith
cleared-swap_first i (false ∷ bs) k zero h = ground (arith, swap_first-le (suc i) bs k h)
cleared-swap_first i (false ∷ bs) k (suc j) h = ground (arith, cleared-swap_first (suc i) bs k j h)

pub cleared-store_true :
    (i j : ℕ) (bs : List Bool) → cleared j (store_true i bs) ≡ (if i == j then 0 else cleared j bs)
unfolding store_true cleared
cleared-store_true i j [] = ground arith
cleared-store_true zero zero (b ∷ bs) = ground arith
cleared-store_true zero (suc j) (b ∷ bs) = ground arith
cleared-store_true (suc i) zero (b ∷ bs) = ground arith
cleared-store_true (suc i) (suc j) (b ∷ bs) = ground (arith, cleared-store_true i j bs)

pub free-store_true : (i : ℕ) (bs : List Bool) → free (store_true i bs) ≡ free bs + cleared i bs
unfolding store_true free cleared
free-store_true i [] = ground arith
free-store_true zero (b ∷ bs) = ground arith
free-store_true (suc i) (b ∷ bs) = ground (arith, free-store_true i bs)

pub length-store_true : (i : ℕ) (bs : List Bool) → length (store_true i bs) ≡ length bs
unfolding store_true
length-store_true i [] = refl
length-store_true zero (b ∷ bs) = refl
length-store_true (suc i) (b ∷ bs) = ap suc (length-store_true i bs)

pub cleared-le : (i : ℕ) (bs : List Bool) → cleared i bs ≤ 1
unfolding cleared
cleared-le i [] = omega arith
cleared-le zero (b ∷ bs) = ground arith
cleared-le (suc i) (b ∷ bs) = cleared-le i bs

pub free-all_free : (n : ℕ) → free (all_free n) ≡ length (all_free n)
unfolding all_free free
free-all_free zero = refl
free-all_free (suc n) = ap suc (free-all_free n)

pub cleared-all_free : (i n : ℕ) → 0 ≡ cleared i (all_free n)
unfolding all_free cleared
cleared-all_free i zero = refl
cleared-all_free zero (suc n) = refl
cleared-all_free (suc i) (suc n) = cleared-all_free i n

pub length-all_free : (n : ℕ) → length (all_free n) ≡ n
unfolding all_free
length-all_free zero = refl
length-all_free (suc n) = ap suc (length-all_free n)
