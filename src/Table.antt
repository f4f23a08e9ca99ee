-- ===== src/Table.antt =====
-- A database table as a list of rows, and the SQL statements that the repositories issue over it
-- (SELECT ... WHERE, UPDATE ... WHERE with its rowcount). The order of the rows stands for the
-- order in which the database happens to return them.
pub mod Laws
pub mod Sort
pub mod Arranged
use inventory_reservation_or.Prelude.{
  ℕ, ◌+◌, Bool, Option, none, some, List, [], ◌∷◌, if◌then◌else◌,
}

module _ {A : Type 0} where
  -- SELECT ... WHERE test, read by `scalar_one_or_none` or `db.get`
  unfoldable pub find : (A → Bool) → List A → Option A
  find test [] = none
  find test (r ∷ rows) = if test r then some r else find test rows

  -- SELECT ... WHERE test
  unfoldable pub select : (A → Bool) → List A → List A
  select test [] = []
  select test (r ∷ rows) = let rest = select test rows in if test r then r ∷ rest else rest

  -- UPDATE ... SET f WHERE test
  unfoldable pub update_where : (A → Bool) → (A → A) → List A → List A
  update_where test f [] = []
  update_where test f (r ∷ rows) = (if test r then f r else r) ∷ update_where test f rows

  -- The rowcount of an UPDATE ... WHERE test
  unfoldable pub rowcount : (A → Bool) → List A → ℕ
  rowcount test [] = 0
  rowcount test (r ∷ rows) = (if test r then 1 else 0) + rowcount test rows
