-- ===== src/Table/Sort.antt =====
-- ORDER BY a column, as a stable insertion sort.
use mathlib.Core.Path.{subst}
use inventory_reservation_or.Prelude.{
  sym, ap, ◌∙◌, suc, ℕ, ◌≤◌, ◌≡◌, refl, Bool, true, false, Option, none, some, List, [], ◌∷◌, arith,
  leb, if◌then◌else◌, Bool-cases, inl, inr,
}
use inventory_reservation_or.Prelude.Lists.{All, length}
use inventory_reservation_or.Table.{select}

module _ {A : Type 0} (column : A → ℕ) where
  unfoldable pub insert_desc : A → List A → List A
  insert_desc r [] = r ∷ []
  insert_desc r (x ∷ xs) = if leb (column x) (column r) then r ∷ x ∷ xs else x ∷ insert_desc r xs

  -- ORDER BY column DESC
  unfoldable pub order_by_desc : List A → List A
  unfolding insert_desc
  order_by_desc [] = []
  order_by_desc (r ∷ rows) = insert_desc r (order_by_desc rows)

  insert_asc : A → List A → List A
  insert_asc r [] = r ∷ []
  insert_asc r (x ∷ xs) = if leb (column r) (column x) then r ∷ x ∷ xs else x ∷ insert_asc r xs

  -- ORDER BY column
  unfoldable pub order_by : List A → List A
  unfolding insert_asc
  order_by [] = []
  order_by (r ∷ rows) = insert_asc r (order_by rows)

abbrev pub first {ℓ} : {A : Type ℓ} → List A → Option A
first [] = none
first (x ∷ xs) = some x

module _ {A : Type 0} (column : A → ℕ) where
  pub All-insert_desc :
      (P : A → Type 0) (r : A) (xs : List A) → P r → All P xs → All P (insert_desc column r xs)
  unfolding insert_desc
  All-insert_desc P r [] p h = (p, tt)
  All-insert_desc P r (x ∷ xs) p h = ground (arith, All-insert_desc P r xs p h.1)

  -- Sorting keeps what holds of every row.
  pub All-order_by_desc :
      (P : A → Type 0) (rows : List A) → All P rows → All P (order_by_desc column rows)
  unfolding order_by_desc
  All-order_by_desc P [] h = tt
  All-order_by_desc P (r ∷ rows) h =
      All-insert_desc P r (order_by_desc column rows) h.0 (All-order_by_desc P rows h.1)

  All-insert_asc :
      (P : A → Type 0) (r : A) (xs : List A) → P r → All P xs → All P (insert_asc column r xs)
  unfolding insert_asc
  All-insert_asc P r [] p h = (p, tt)
  All-insert_asc P r (x ∷ xs) p h = ground (arith, All-insert_asc P r xs p h.1)

  pub All-order_by : (P : A → Type 0) (rows : List A) → All P rows → All P (order_by column rows)
  unfolding order_by
  All-order_by P [] h = tt
  All-order_by P (r ∷ rows) h =
      All-insert_asc P r (order_by column rows) h.0 (All-order_by P rows h.1)

  insert_asc-length : (r : A) (xs : List A) → length (insert_asc column r xs) ≡ suc (length xs)
  unfolding insert_asc
  insert_asc-length r [] = refl
  insert_asc-length r (x ∷ xs) = ground (arith, insert_asc-length r xs)

  pub order_by-length : (rows : List A) → length (order_by column rows) ≡ length rows
  unfolding order_by
  order_by-length [] = refl
  order_by-length (r ∷ rows) =
      insert_asc-length r (order_by column rows) ∙ ap suc (order_by-length rows)

  -- The row that stands first after an insertion.
  abbrev pick : A → Option A → A
  pick r none = r
  pick r (some x) = if leb (column x) (column r) then r else x

  first-insert_desc :
      (r : A) (xs : List A) → first (insert_desc column r xs) ≡ some (pick r (first xs))
  unfolding insert_desc
  first-insert_desc r [] = refl
  first-insert_desc r (x ∷ xs) = ground arith

  All-weaken :
      (m n : A) (rows : List A)
      → column m ≤ column n
      → All (λ x. column x ≤ column m) rows
      → All (λ x. column x ≤ column n) rows
  All-weaken m n [] le h = tt
  All-weaken m n (x ∷ rows) le h = (omega arith, All-weaken m n rows le h.1)

  pick-All :
      (r : A) (rows : List A) (found : Option A)
      → (found ≡ none → rows ≡ [])
      → ((n : A) → found ≡ some n → All (λ x. column x ≤ column n) rows)
      → All (λ x. column x ≤ column (pick r found)) (r ∷ rows)
  pick-All r rows none empty bound = rw (empty refl) (omega arith)
  pick-All r rows (some n) empty bound =
      (ground arith, All-weaken n (pick r (some n)) rows (ground arith) (bound n refl))

  pub order_by_desc-none : (rows : List A) → first (order_by_desc column rows) ≡ none → rows ≡ []
  unfolding order_by_desc
  order_by_desc-none [] h = refl
  order_by_desc-none (r ∷ rows) h = cc (first-insert_desc r (order_by_desc column rows))

  -- The first row of a descending order bounds every row of the table.
  pub first-order_by_desc :
      (rows : List A) (m : A)
      → first (order_by_desc column rows) ≡ some m
      → All (λ x. column x ≤ column m) rows
  unfolding order_by_desc
  first-order_by_desc [] m h = tt
  first-order_by_desc (r ∷ rows) m h =
      let sorted = order_by_desc column rows in
      let e : m ≡ pick r (first sorted) = cc (first-insert_desc r sorted) in
      subst (λ n. All (λ x. column x ≤ column n) (r ∷ rows)) (sym e)
        (pick-All r rows (first sorted) (order_by_desc-none rows) (first-order_by_desc rows))

-- A SELECT keeps what holds of every row, and adds its own test.
pub All-select :
    {A : Type 0} (P : A → Type 0) (test : A → Bool) (rows : List A)
    → All P rows
    → All (λ r. P r × (test r ≡ true)) (select test rows)
unfolding select
All-select P test [] h = tt
All-select P test (r ∷ rows) h = ground (arith, All-select P test rows h.1)

-- The rows of a SELECT pass its test.
pub select-test :
    {A : Type 0} (test : A → Bool) (rows : List A) → All (λ r. test r ≡ true) (select test rows)
unfolding select
select-test test [] = tt
select-test test (r ∷ rows) = ground (arith, select-test test rows)

-- A row that a SELECT with no result does not return fails its test.
pub select-none :
    {A : Type 0} (test : A → Bool) (rows : List A)
    → select test rows ≡ []
    → All (λ r. test r ≡ false) rows
unfolding select
select-none test [] h = tt
select-none test (r ∷ rows) h = ground (arith, select-none test rows)

-- What holds of every selected row holds of the rows that pass the test.
pub select-All :
    {A : Type 0} (P : A → Type 0) (test : A → Bool) (rows : List A)
    → All P (select test rows)
    → All (λ r. test r ≡ true → P r) rows
unfolding select
select-All P test [] h = tt
select-All P test (r ∷ rows) h = elim (Bool-cases (test r)) [
  | inl hit ↦ let k = rw hit at h in ((λ e. k.0), select-All P test rows k.1)
  | inr miss ↦ let k = rw miss at h in ((λ e. cc), select-All P test rows k)
]

-- The first row of a list that all rows satisfy.
pub All-first :
    {A : Type 0} (P : A → Type 0) (rows : List A) (m : A) → All P rows → first rows ≡ some m → P m
All-first P [] m h e = cc
All-first P (x ∷ rows) m h e = let same : x ≡ m = cc in subst P same h.0
