-- ===== src/Microphone/Chunks.antt =====
-- client/src/mic.rs: the chunks of the buffer, and what is left of it.
use voices.Common.{
  ℕ, zero, suc, ◌≤◌, ◌<◌, ◌≡◌, ◌-◌, List, [], ◌∷◌, ◌++◌, length, All, refl, ap, arith, ltb,
  Bool-cases, inl, inr, ltb→lt, ◌∙◌,
}
use mathlib.Core.List.{append_assoc}
use voices.Microphone.{take, drop, concat, chunks_exact}

module _ {A : Type 0} where
  take-drop : (n : ℕ) (xs : List A) → take n xs ++ drop n xs ≡ xs
  take-drop zero xs = refl
  take-drop (suc n) [] = refl
  take-drop (suc n) (x ∷ xs) = ap (λ ys. x ∷ ys) (take-drop n xs)

  length-take : (n : ℕ) (xs : List A) → n ≤ length xs → length (take n xs) ≡ n
  length-take zero xs h = refl
  length-take (suc n) [] h = absurd (omega arith)
  length-take (suc n) (x ∷ xs) h = omega (arith, length-take n xs)

  length-drop : (n : ℕ) (xs : List A) → length (drop n xs) ≡ length xs - n
  length-drop zero xs = omega arith
  length-drop (suc n) [] = omega arith
  length-drop (suc n) (x ∷ xs) = omega (arith, length-drop n xs)

  pub record IsChunked (size : ℕ) (xs : List A) (r : List (List A) × List A) : Type 0 where
    pub same : concat r.0 ++ r.1 ≡ xs
    pub whole : All (λ c. length c ≡ size) r.0
    pub short : length r.1 < size

  -- With as much fuel as there are elements, the chunks and the rest are the list, each chunk has its
  -- size, and the rest is shorter than that.
  pub chunks_exact-IsChunked :
      (fuel size : ℕ) (xs : List A)
      → 0 < size
      → length xs ≤ fuel
      → IsChunked size xs (chunks_exact fuel size xs)
  unfolding chunks_exact
  chunks_exact-IsChunked zero size xs p h = record { same = refl; whole = tt; short = omega arith }
  chunks_exact-IsChunked (suc fuel) size xs p h = elim (Bool-cases (ltb (length xs) size)) [
    | inl few ↦ rw (few) (record { same = refl; whole = tt; short = ltb→lt _ _ few })
    | inr more ↦
        let enough : size ≤ length xs = ground (arith, more) in
        let k : IsChunked size (drop size xs) (chunks_exact fuel size (drop size xs)) =
          chunks_exact-IsChunked fuel size (drop size xs) p (omega (arith, length-drop size xs)) in
        rw (more) (record {
          same =
              append_assoc (take size xs) _ _
              ∙ ap (λ ys. take size xs ++ ys) k.same
              ∙ take-drop size xs;
          whole = (length-take size xs enough, k.whole);
          short = k.short;
        })
  ]
