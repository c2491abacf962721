-- ===== src/Registry/Pages.antt =====
-- server/channels/core/src/db.rs: `Paginated`, as `ChannelsImpl::get_servers` uses it. The query has no
-- ORDER BY: each query takes its rows from the table in an order that the database chooses anew, the
-- order of the list here. Pages and rows are counted
-- by natural numbers: a page size below zero is an error of the database. The counts are below 2^53, where
-- the division of floats rounds up as the division of naturals does.
pub mod Slices
pub mod Paging
use voices.Common.{
  ℕ, suc, ◌+◌, ◌-◌, ◌*◌, ◌/◌, ◌%◌, zero, ◌++◌, Option, none, some, ltb, ◌&&◌, List, [], ◌∷◌, length,
  ◌==◌, if◌then◌else◌,
}

-- A row with the count of all rows, as `COUNT(*) OVER ()` gives it.
abbrev pub Counted : Type 0 → Type 0
Counted A = List (A × ℕ)

-- `OFFSET` and `LIMIT`
unfoldable pub offset : {A : Type 0} → ℕ → List A → List A
offset n [] = []
offset zero (x ∷ xs) = x ∷ xs
offset (suc n) (x ∷ xs) = offset n xs

unfoldable pub limit : {A : Type 0} → ℕ → List A → List A
limit n [] = []
limit zero (x ∷ xs) = []
limit (suc n) (x ∷ xs) = x ∷ limit n xs

abbrev pub with_count : {A : Type 0} → ℕ → List A → Counted A
with_count n [] = []
with_count n (x ∷ xs) = (x, n) ∷ with_count n xs

-- `walk_ast`: the window function counts before the limit is applied.
unfoldable pub query : {A : Type 0} → ℕ → ℕ → List A → Counted A
unfolding offset limit
query page per_page rows =
    limit per_page (offset ((page - 1) * per_page) (with_count (length rows) rows))

-- `(total as f64 / per_page as f64).ceil() as i64`; zero by zero is not a number, which becomes zero.
abbrev pub div_ceil : ℕ → ℕ → ℕ
div_ceil n p = if p == 0 then 0 else (n + p - 1) / p

abbrev pub first_total : {A : Type 0} → Counted A → ℕ
first_total [] = 0
first_total ((x, n) ∷ rows) = n

abbrev pub records : {A : Type 0} → Counted A → List A
records [] = []
records ((x, n) ∷ rows) = x ∷ records rows

-- `load_and_count_pages`, on the rows in the order of this query: the total is read from the first row. An offset below zero is an error.
unfoldable pub load_and_count_pages : {A : Type 0} → ℕ → ℕ → List A → Option (List A × ℕ)
unfolding query
load_and_count_pages page per_page rows =
    if page == 0 && ltb 0 per_page
    then none
    else let results = query page per_page rows in
      some (records results, div_ceil (first_total results) per_page)

-- What a client collects that asks for `more` pages from one on; `rows` has the rows in the order of the
-- query of each page.
abbrev pub rows_of : {A : Type 0} → Option (List A × ℕ) → List A
rows_of none = []
rows_of (some (xs, n)) = xs

unfoldable pub pages_from : {A : Type 0} → ℕ → ℕ → ℕ → (ℕ → List A) → List A
pages_from page zero per_page rows = []
pages_from page (suc more) per_page rows =
    rows_of (load_and_count_pages page per_page (rows page))
    ++ pages_from (suc page) more per_page rows

abbrev pub count_of : {A : Type 0} → Option (List A × ℕ) → ℕ
count_of none = 0
count_of (some (xs, n)) = n

-- A client that asks for the first page, and then for as many pages as it says there are.
unfoldable pub all_pages : {A : Type 0} → ℕ → (ℕ → List A) → List A
unfolding pages_from
all_pages per_page rows =
    pages_from 1 (count_of (load_and_count_pages 1 per_page (rows 1))) per_page rows
