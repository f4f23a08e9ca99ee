-- ===== src/Stock/Rows.antt =====
-- How the UPDATEs of src/repositories/inventory_repository.py move the two quantities of a pair.
use mathlib.Core.Option
use inventory_reservation_or.Prelude.{
  ℕ, ◌≡◌, refl, ◌∙◌, Bool, true, false, ◌&&◌, Option, none, some, List, [], ◌∷◌, arith, ◌==◌,
  if◌then◌else◌, Bool-cases, inl, inr,
}
use inventory_reservation_or.Models.{Uid, Inventory}
use inventory_reservation_or.Table.{find, update_where, rowcount}
use inventory_reservation_or.Table.Laws.{find-update_where, find_sound, rowcount-none}
use inventory_reservation_or.Repositories.Inventory.{is_at}
use inventory_reservation_or.Stock.{IsUnique, row_at}

-- Whether an UPDATE of one pair's row finds it.
abbrev pub hits : (Inventory → Bool) → Option Inventory → ℕ
hits guard none = 0
hits guard (some r) = if guard r then 1 else 0

-- The rowcount of an UPDATE of one pair is decided by the pair's only row.
pub rowcount-IsUnique :
    (p w : Uid) (guard : Inventory → Bool) (rows : List Inventory)
    → IsUnique rows
    → rowcount (λ r. is_at p w r && guard r) rows ≡ hits guard (row_at p w rows)
unfolding find rowcount
rowcount-IsUnique p w guard [] u = refl
rowcount-IsUnique p w guard (r ∷ rows) u =
    ground (arith, rowcount-IsUnique p w guard rows u.1, rowcount-none (is_at p w) guard rows)

-- An UPDATE that leaves the keys of the rows alone.
module _ (test : Inventory → Bool) (f : Inventory → Inventory)
    (kp : (r : Inventory) → (f r).product_id ≡ r.product_id)
    (kw : (r : Inventory) → (f r).warehouse_id ≡ r.warehouse_id) where
  -- It acts on the row of each pair.
  pub row_at-update_where :
      (p w : Uid) (rows : List Inventory)
      → row_at p w (update_where test f rows)
        ≡ Option.map (λ r. if test r then f r else r) (row_at p w rows)
  row_at-update_where p w = find-update_where (is_at p w) test f (λ r. ground (arith, kp r, kw r))

  update-product_id : (r : Inventory) → (if test r then f r else r).product_id ≡ r.product_id
  update-product_id r = ground (arith, kp r)

  update-warehouse_id : (r : Inventory) → (if test r then f r else r).warehouse_id ≡ r.warehouse_id
  update-warehouse_id r = ground (arith, kw r)

  -- It leaves them unique.
  pub update_where-IsUnique :
      (rows : List Inventory) → IsUnique rows → IsUnique (update_where test f rows)
  unfolding update_where
  update_where-IsUnique [] u = tt
  update_where-IsUnique (r ∷ rows) u = (
    rw (update-product_id r, update-warehouse_id r)
        (rw (row_at-update_where r.product_id r.warehouse_id rows, u.0)),
    update_where-IsUnique rows u.1,
  )

-- The pair that an UPDATE is for, seen from any pair.
pub same_row :
    (p w p' w' : Uid) (rows : List Inventory)
    → (p == p' && w == w') ≡ true
    → row_at p' w' rows ≡ row_at p w rows
same_row p w p' w' rows e =
    let ep : p ≡ p' = ground arith in let ew : w ≡ w' = ground arith in rw (ep, ew)

-- A pair's row is one of the pair.
row_at-is_at :
    (p w p' w' : Uid) (rows : List Inventory) (r : Inventory)
    → row_at p' w' rows ≡ some r
    → is_at p w r ≡ (p == p' && w == w')
row_at-is_at p w p' w' rows r e = ground (arith, find_sound (is_at p' w') rows e)

-- What an UPDATE of one pair's row makes of it.
abbrev pub updated :
    (Inventory → Bool) → (Inventory → Inventory) → Option Inventory → Option Inventory
updated guard f none = none
updated guard f (some r) = some (if guard r then f r else r)

module _ (p w : Uid) (guard : Inventory → Bool) (f : Inventory → Inventory)
    (kp : (r : Inventory) → (f r).product_id ≡ r.product_id)
    (kw : (r : Inventory) → (f r).warehouse_id ≡ r.warehouse_id) (rows : List Inventory) where
  abbrev pub after : List Inventory
  after = update_where (λ r. is_at p w r && guard r) f rows

  updated_other :
      (p' w' : Uid) (found : Option Inventory)
      → ((r : Inventory) → found ≡ some r → is_at p w r ≡ false)
      → Option.map (λ r. if is_at p w r && guard r then f r else r) found ≡ found
  updated_other p' w' none other = refl
  updated_other p' w' (some r) other = rw (other r refl)

  updated_same :
      (found : Option Inventory)
      → ((r : Inventory) → found ≡ some r → is_at p w r ≡ true)
      → Option.map (λ r. if is_at p w r && guard r then f r else r) found ≡ updated guard f found
  updated_same none same = refl
  updated_same (some r) same = rw (same r refl)

  -- An UPDATE of one pair changes the row of that pair alone.
  pub row_at-update :
      (p' w' : Uid)
      → row_at p' w' after
        ≡ (if p == p' && w == w' then updated guard f (row_at p w rows) else row_at p' w' rows)
  row_at-update p' w' =
      row_at-update_where (λ r. is_at p w r && guard r) f kp kw p' w' rows
      ∙ elim (Bool-cases (p == p' && w == w')) [
        | inl e ↦
            rw (e, same_row p w p' w' rows e)
              (updated_same (row_at p w rows) (λ r found. find_sound (is_at p w) rows found))
        | inr e ↦ rw e (
            updated_other p' w' (row_at p' w' rows)
              (λ r found. row_at-is_at p w p' w' rows r found ∙ e))
      ]
