-- ===== src/Registry/Pages/Paging.antt =====
-- server/channels/core/src/db.rs: what the pages of a table hold together.
use voices.Common.{
  ℕ, zero, suc, ◌+◌, ◌-◌, ◌*◌, ◌/◌, ◌%◌, ◌≤◌, ◌<◌, ◌≡◌, refl, sym, ap, ◌∙◌, arith, some, List, [],
  ◌∷◌, ◌++◌, length, ◌==◌, false,
}
use native.Mathlib.Nat.{div-add-mod', div-eq_of_lt, mod-lt}
use voices.Registry.Pages.Slices.{
  records-query, limit-nil, offset-offset, limit-split, limit-zero, limit-all, offset-past,
  length-limit, length-offset, length-++,
}
use voices.Registry.Pages.{
  offset, limit, with_count, query, div_ceil, first_total, records, load_and_count_pages, rows_of,
  pages_from, count_of, all_pages,
}

module _ {A : Type 0} where
  -- A page from one on is answered.
  page_given :
      (page p : ℕ) (rows : List A)
      → load_and_count_pages (suc page) p rows
        ≡ some
            (records (query (suc page) p rows), div_ceil (first_total (query (suc page) p rows)) p)
  unfolding load_and_count_pages
  page_given page p rows = let e : (suc page == 0) ≡ false = ground arith in rw (e) refl

  page_rows :
      (page p : ℕ) (rows : List A)
      → rows_of (load_and_count_pages (suc page) p rows) ≡ limit p (offset (page * p) rows)
  page_rows page p rows =
      let e : suc page - 1 ≡ page = omega arith in
      ap rows_of (page_given page p rows)
      ∙ records-query (suc page) p rows
      ∙ ap (λ k. limit p (offset (k * p) rows)) e

  pages_from-limit :
      (page more p : ℕ) (rows : List A)
      → pages_from (suc page) more p (λ k. rows) ≡ limit (more * p) (offset (page * p) rows)
  unfolding pages_from
  pages_from-limit page zero p rows =
      let e : 0 ≡ 0 * p = omega arith in
      sym (limit-zero (offset (page * p) rows)) ∙ ap (λ k. limit k (offset (page * p) rows)) e
  pages_from-limit page (suc more) p rows =
      let ys : List A = offset (page * p) rows in
      let e : suc page * p ≡ page * p + p = grind arith in
      let f : p + more * p ≡ suc more * p = grind arith in
      ap (λ xs. xs ++ pages_from (suc (suc page)) more p (λ k. rows)) (page_rows page p rows)
      ∙ ap (λ xs. limit p ys ++ xs)
          (pages_from-limit (suc page) more p rows
            ∙ ap (λ k. limit (more * p) (offset k rows)) e
            ∙ ap (limit (more * p)) (sym (offset-offset p (page * p) rows)))
      ∙ limit-split p (more * p) ys
      ∙ ap (λ k. limit k ys) f

  length-with_count : (n : ℕ) (rows : List A) → length (with_count n rows) ≡ length rows
  length-with_count n [] = refl
  length-with_count n (x ∷ rows) = ap suc (length-with_count n rows)

  offset-zero : (k : ℕ) (rows : List A) → k ≡ 0 → offset k rows ≡ rows
  unfolding offset
  offset-zero k [] e = refl
  offset-zero k (x ∷ rows) e = ap (λ m. offset m (x ∷ rows)) e

  -- The first page has the count, unless the table is empty.
  first_total-limit :
      (p n : ℕ) (rows : List A)
      → 0 < p
      → n ≡ length rows
      → first_total (limit p (with_count n rows)) ≡ length rows
  unfolding limit
  first_total-limit p n [] lt e = refl
  first_total-limit zero n (x ∷ rows) lt e = absurd (omega (arith, lt))
  first_total-limit (suc p) n (x ∷ rows) lt e = e

module _ {A : Type 0} where
  first_total-query : (p : ℕ) (rows : List A) → 0 < p → first_total (query 1 p rows) ≡ length rows
  unfolding query
  first_total-query p rows lt =
      let e : (1 - 1) * p ≡ 0 = omega arith in
      ap (λ xs. first_total (limit p xs))
        (offset-zero ((1 - 1) * p) (with_count (length rows) rows) e)
      ∙ first_total-limit p (length rows) rows lt refl

  query_past : (page p : ℕ) (rows : List A) → length rows ≤ page * p → query (suc page) p rows ≡ []
  unfolding query
  query_past page p rows le =
      let e : suc page - 1 ≡ page = omega arith in
      let n : length (with_count (length rows) rows) ≤ page * p =
        omega (arith, le, length-with_count (length rows) rows) in
      ap (λ k. limit p (offset (k * p) (with_count (length rows) rows))) e
      ∙ ap (limit p) (offset-past (page * p) (with_count (length rows) rows) n)
      ∙ limit-nil p

enough : (n p : ℕ) → 0 < p → n ≤ div_ceil n p * p
enough n p lt =
    let z : (p == 0) ≡ false = ground (arith, lt) in
    let e : (n + p - 1) / p * p + (n + p - 1) % p ≡ n + p - 1 = div-add-mod' (n + p - 1) p in
    let m : (n + p - 1) % p < p = mod-lt (n + p - 1) lt in
    let le : n ≤ (n + p - 1) / p * p = omega (arith, e, m, lt) in rw (z) le

none_left : (p : ℕ) → 0 < p → div_ceil 0 p ≡ 0
none_left p lt =
    let z : (p == 0) ≡ false = ground (arith, lt) in
    let e : (0 + p - 1) / p ≡ 0 = div-eq_of_lt (omega (arith, lt)) in rw (z) e

module _ {A : Type 0} where
  -- How many rows are collected does not depend on the orders.
  length-pages_from :
      (page more p : ℕ) (rows : ℕ → List A) (one : List A)
      → ((k : ℕ) → length (rows k) ≡ length one)
      → length (pages_from (suc page) more p rows)
        ≡ length (pages_from (suc page) more p (λ k. one))
  unfolding pages_from
  length-pages_from page zero p rows one same = refl
  length-pages_from page (suc more) p rows one same =
      let xs : List A = rows_of (load_and_count_pages (suc page) p (rows (suc page))) in
      let ys : List A = rows_of (load_and_count_pages (suc page) p one) in
      let e : length xs ≡ length ys =
        ap length (page_rows page p (rows (suc page)))
        ∙ length-limit p (offset (page * p) (rows (suc page))) (offset (page * p) one)
            (length-offset (page * p) (rows (suc page)) one (same (suc page)))
        ∙ ap length (sym (page_rows page p one)) in
      omega (
        arith,
        e,
        length-++ xs (pages_from (suc (suc page)) more p rows),
        length-++ ys (pages_from (suc (suc page)) more p (λ k. one)),
        length-pages_from (suc page) more p rows one same,
      )

  first_count :
      (p : ℕ) (rows : List A)
      → 0 < p
      → count_of (load_and_count_pages 1 p rows) ≡ div_ceil (length rows) p
  first_count p rows lt =
      ap count_of (page_given 0 p rows) ∙ ap (λ n. div_ceil n p) (first_total-query p rows lt)

  -- Where all queries give the rows in one order, all of them are collected in that order.
  one_order :
      (p : ℕ) (rows : List A) → 0 < p → pages_from 1 (div_ceil (length rows) p) p (λ k. rows) ≡ rows
  one_order p rows lt =
      let count : ℕ = div_ceil (length rows) p in
      let z : 0 * p ≡ 0 = omega arith in
      pages_from-limit 0 count p rows
      ∙ ap (limit (count * p)) (offset-zero (0 * p) rows z)
      ∙ limit-all (count * p) rows (enough (length rows) p lt)

  -- With pages of at least one row, and a table that has the same number of rows in each query, a client
  -- that asks for the first page, and then for as many pages as it is told that there are, gets as many
  -- rows as the table has, in whatever order the database takes the rows in each query; and a page past
  -- the end is empty and says that there are no pages at all.
  pub length-all_pages :
      (per_page page n : ℕ) (rows : ℕ → List A)
      → 0 < per_page
      → ((k : ℕ) → length (rows k) ≡ n)
      → n ≤ page * per_page
      → (length (all_pages per_page rows) ≡ n)
        × (load_and_count_pages (suc page) per_page (rows (suc page)) ≡ some ([], 0))
  unfolding all_pages
  length-all_pages per_page page n rows lt same le =
      let one : List A = rows 1 in
      let past : List A = rows (suc page) in
      let count : ℕ = div_ceil (length one) per_page in
      let le' : length past ≤ page * per_page = omega (arith, le, same (suc page)) in
      (
        ap (λ k. length (pages_from 1 k per_page rows)) (first_count per_page one lt)
            ∙ length-pages_from 0 count per_page rows one (λ k. same k ∙ sym (same 1))
            ∙ ap length (one_order per_page one lt)
            ∙ same 1,
        page_given page per_page past
            ∙ ap (λ xs. some (records xs, div_ceil (first_total xs) per_page))
                (query_past page per_page past le')
            ∙ ap (λ k. some ([], k)) (none_left per_page lt),
      )
