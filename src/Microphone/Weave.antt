-- ===== src/Microphone/Weave.antt =====
-- client/src/mic.rs: `deinterleave` and `interleave` undo one another.
use voices.Common.{suc, ◌+◌, ◌≡◌, some, List, [], ◌∷◌, length, refl, ap, arith, ◌==◌, ==_iff, true}
use voices.Microphone.{weave, unweave, put_pair, put_each, interleave, deinterleave}

module _ {A : Type 0} where
  -- What the split of `input` into buffers as long as `l` and `r` gives.
  abbrev Split : List A → List A → List A → Type 0
  Split input l r =
      (l' : List A) × (r' : List A) × (unweave input l r ≡ some (l', r'))
      × (length l' ≡ length l)
      × (length r' ≡ length r)
      × ((out : List A) → length out ≡ length input → weave l' r' out ≡ some input)

  unweave-Split :
      (input l r : List A)
      → length l ≡ length r
      → length input ≡ length l + length r
      → Split input l r
  unfolding unweave weave
  unweave-Split [] [] [] e f = ([], [], refl, refl, refl, empty)
    where
      empty : (out : List A) → length out ≡ 0 → weave [] [] out ≡ some []
      empty [] g = refl
      empty (x ∷ out) g = absurd (omega (arith, g))
  unweave-Split (a ∷ input) [] [] e f = absurd (omega (arith, f))
  unweave-Split input [] (y ∷ r) e f = absurd (omega (arith, e))
  unweave-Split input (x ∷ l) [] e f = absurd (omega (arith, e))
  unweave-Split [] (x ∷ l) (y ∷ r) e f = absurd (omega (arith, f))
  unweave-Split (a ∷ []) (x ∷ l) (y ∷ r) e f = absurd (omega (arith, f))
  unweave-Split (a ∷ b ∷ input) (x ∷ l) (y ∷ r) e f =
      let (l', r', g, m, n, h) = unweave-Split input l r (omega (arith, e)) (omega (arith, f)) in
      (a ∷ l', b ∷ r', ap (put_each a b) g, ap suc m, ap suc n, longer l' r' h)
    where
      longer :
          (l' r' : List A)
          → ((out : List A) → length out ≡ length input → weave l' r' out ≡ some input)
          → (out : List A) → length out ≡ suc (suc (length input))
          → weave (a ∷ l') (b ∷ r') out ≡ some (a ∷ b ∷ input)
      longer l' r' h [] k = absurd (omega (arith, k))
      longer l' r' h (u ∷ []) k = absurd (omega (arith, k))
      longer l' r' h (u ∷ v ∷ out) k = ap (put_pair a b) (h out (omega (arith, k)))

  -- An input that fills two buffers of the same length is split into them, and putting them together
  -- gives it back, into whatever buffer of its length.
  pub interleave-deinterleave :
      (input l r out : List A)
      → length l ≡ length r
      → length input ≡ length l + length r
      → length out ≡ length input
      → (l' : List A) × (r' : List A) × (deinterleave input l r ≡ some (l', r'))
        × (length l' ≡ length l)
        × (length r' ≡ length r)
        × (interleave l' r' out ≡ some input)
  unfolding deinterleave interleave
  interleave-deinterleave input l r out e f g =
      let (l', r', s, m, n, h) = unweave-Split input l r e f in
      let fits : (length input == length l + length r) ≡ true = (==_iff _ _).1 f in
      let full : (length l' + length r' == length out) ≡ true =
        (==_iff _ _).1 (omega (arith, m, n, f, g)) in
      (l', r', rw (fits) s, m, n, rw (full) (h out g))
