-- ===== src/Registry/Pages/Slices.antt =====
-- server/channels/core/src/db.rs: the offset and the limit of a query.
use voices.Common.{
  ℕ, zero, suc, ◌+◌, ◌-◌, ◌*◌, ◌≤◌, ◌≡◌, refl, ap, ◌∙◌, arith, List, [], ◌∷◌, ◌++◌, length,
}
use voices.Registry.Pages.{Counted, offset, limit, with_count, query, records}

module _ {A : Type 0} where
  records-with_count : (n : ℕ) (rows : List A) → records (with_count n rows) ≡ rows
  records-with_count n [] = refl
  records-with_count n (x ∷ rows) = ap (λ xs. x ∷ xs) (records-with_count n rows)

  records-limit : (k : ℕ) (rows : Counted A) → records (limit k rows) ≡ limit k (records rows)
  unfolding limit
  records-limit k [] = refl
  records-limit zero (x ∷ rows) = refl
  records-limit (suc k) ((x, n) ∷ rows) = ap (λ xs. x ∷ xs) (records-limit k rows)

  records-offset : (k : ℕ) (rows : Counted A) → records (offset k rows) ≡ offset k (records rows)
  unfolding offset
  records-offset k [] = refl
  records-offset zero (x ∷ rows) = refl
  records-offset (suc k) ((x, n) ∷ rows) = records-offset k rows

  pub records-query :
      (page p : ℕ) (rows : List A)
      → records (query page p rows) ≡ limit p (offset ((page - 1) * p) rows)
  unfolding query
  records-query page p rows =
      records-limit p (offset ((page - 1) * p) (with_count (length rows) rows))
      ∙ ap (limit p) (
          records-offset ((page - 1) * p) (with_count (length rows) rows)
          ∙ ap (offset ((page - 1) * p)) (records-with_count (length rows) rows))

  pub limit-nil : (k : ℕ) → limit {A = A} k [] ≡ []
  unfolding limit
  limit-nil k = refl

  pub offset-offset : (k n : ℕ) (rows : List A) → offset k (offset n rows) ≡ offset (n + k) rows
  unfolding offset
  offset-offset k n [] = refl
  offset-offset k zero (x ∷ rows) =
      let e : k ≡ 0 + k = omega arith in ap (λ m. offset m (x ∷ rows)) e
  offset-offset k (suc n) (x ∷ rows) =
      let e : suc (n + k) ≡ suc n + k = omega arith in
      offset-offset k n rows ∙ ap (λ m. offset m (x ∷ rows)) e

  pub limit-split :
      (k n : ℕ) (rows : List A) → limit k rows ++ limit n (offset k rows) ≡ limit (k + n) rows
  unfolding limit offset
  limit-split k n [] = refl
  limit-split zero n (x ∷ rows) = let e : n ≡ 0 + n = omega arith in ap (λ m. limit m (x ∷ rows)) e
  limit-split (suc k) n (x ∷ rows) =
      let e : suc (k + n) ≡ suc k + n = omega arith in
      ap (λ xs. x ∷ xs) (limit-split k n rows) ∙ ap (λ m. limit m (x ∷ rows)) e

  pub limit-zero : (rows : List A) → limit 0 rows ≡ []
  unfolding limit
  limit-zero [] = refl
  limit-zero (x ∷ rows) = refl

  pub limit-all : (k : ℕ) (rows : List A) → length rows ≤ k → limit k rows ≡ rows
  unfolding limit
  limit-all k [] le = refl
  limit-all zero (x ∷ rows) le = absurd (omega (arith, le))
  limit-all (suc k) (x ∷ rows) le = ap (λ xs. x ∷ xs) (limit-all k rows (omega (arith, le)))

  pub offset-past : (k : ℕ) (rows : List A) → length rows ≤ k → offset k rows ≡ []
  unfolding offset
  offset-past k [] le = refl
  offset-past zero (x ∷ rows) le = absurd (omega (arith, le))
  offset-past (suc k) (x ∷ rows) le = offset-past k rows (omega (arith, le))

  pub length-limit :
      (k : ℕ) (xs ys : List A) → length xs ≡ length ys → length (limit k xs) ≡ length (limit k ys)
  unfolding limit
  length-limit k [] [] e = refl
  length-limit k [] (y ∷ ys) e = absurd (omega (arith, e))
  length-limit k (x ∷ xs) [] e = absurd (omega (arith, e))
  length-limit zero (x ∷ xs) (y ∷ ys) e = refl
  length-limit (suc k) (x ∷ xs) (y ∷ ys) e = ap suc (length-limit k xs ys (omega (arith, e)))

  pub length-offset :
      (k : ℕ) (xs ys : List A) → length xs ≡ length ys → length (offset k xs) ≡ length (offset k ys)
  unfolding offset
  length-offset k [] [] e = refl
  length-offset k [] (y ∷ ys) e = absurd (omega (arith, e))
  length-offset k (x ∷ xs) [] e = absurd (omega (arith, e))
  length-offset zero (x ∷ xs) (y ∷ ys) e = e
  length-offset (suc k) (x ∷ xs) (y ∷ ys) e = length-offset k xs ys (omega (arith, e))

  pub length-++ : (xs ys : List A) → length (xs ++ ys) ≡ length xs + length ys
  length-++ [] ys = omega arith
  length-++ (x ∷ xs) ys = omega (arith, length-++ xs ys)
