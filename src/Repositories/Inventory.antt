-- ===== src/Repositories/Inventory.antt =====
-- src/repositories/inventory_repository.py: every mutation is one conditional UPDATE, and answers
-- whether its rowcount was 1.
use inventory_reservation_or.Prelude.{
  ℕ, ◌+◌, ◌-◌, Bool, true, false, not, ◌&&◌, ◌||◌, Option, none, some, List, [], ◌∷◌, ltb, leb,
  ◌==◌,
}
use inventory_reservation_or.Prelude.Int.{ℤ, pos, ◌+ℤ◌, pos_part, is_negative}
use inventory_reservation_or.Models.{Uid, Inventory}
use inventory_reservation_or.Session.{Session, St, Action, ok, err, integrity_error}
use inventory_reservation_or.Table.{find, select, update_where, rowcount}
use inventory_reservation_or.Table.Sort.{order_by_desc, first}

-- WHERE product_id = :pid AND warehouse_id = :wid
abbrev pub is_at : Uid → Uid → Inventory → Bool
is_at product_id warehouse_id r = r.product_id == product_id && r.warehouse_id == warehouse_id

abbrev pub set_inventory : List Inventory → Session → Session
set_inventory rows s = record s { tables = record s.tables { inventory = rows } }

-- db.execute(update(Inventory).where(test).values(f)), with its rowcount
abbrev pub execute_update : (Inventory → Bool) → (Inventory → Inventory) → St ℕ
execute_update test f s =
    (rowcount test s.tables.inventory, set_inventory (update_where test f s.tables.inventory) s)

abbrev pub affects_one : St ℕ → St Bool
affects_one m s = let (n, s') = m s in (n == 1, s')

unfoldable pub get : Uid → Uid → Session → Option Inventory
get product_id warehouse_id s = find (is_at product_id warehouse_id) s.tables.inventory

unfoldable pub list_for_product : Uid → Session → List Inventory
list_for_product product_id s = select (λ r. r.product_id == product_id) s.tables.inventory

unfoldable pub find_best_warehouse : Uid → ℕ → Session → Option Inventory
find_best_warehouse product_id quantity s = first (
    order_by_desc (λ r. r.available_quantity)
      (select (λ r. r.product_id == product_id && leb quantity r.available_quantity)
        s.tables.inventory))

abbrev pub sum_available : List Inventory → ℕ
sum_available [] = 0
sum_available (r ∷ rows) = r.available_quantity + sum_available rows

unfoldable pub total_available : Uid → Session → ℕ
unfolding list_for_product
total_available product_id s = sum_available (list_for_product product_id s)

unfoldable pub try_reserve : Uid → Uid → ℕ → St Bool
try_reserve product_id warehouse_id quantity = affects_one (
    execute_update (λ r. is_at product_id warehouse_id r && leb quantity r.available_quantity)
      (λ r. record r {
        available_quantity = r.available_quantity - quantity;
        reserved_quantity = r.reserved_quantity + quantity;
      }))

unfoldable pub release : Uid → Uid → ℕ → St Bool
release product_id warehouse_id quantity = affects_one (
    execute_update (λ r. is_at product_id warehouse_id r && leb quantity r.reserved_quantity)
      (λ r. record r {
        available_quantity = r.available_quantity + quantity;
        reserved_quantity = r.reserved_quantity - quantity;
      }))

unfoldable pub consume : Uid → Uid → ℕ → St Bool
consume product_id warehouse_id quantity = affects_one (
    execute_update (λ r. is_at product_id warehouse_id r && leb quantity r.reserved_quantity)
      (λ r. record r { reserved_quantity = r.reserved_quantity - quantity }))

unfoldable pub adjust_available : Uid → Uid → ℤ → St Bool
adjust_available product_id warehouse_id delta = affects_one (
    execute_update
      (λ r.
        is_at product_id warehouse_id r && not (is_negative (pos r.available_quantity +ℤ delta)))
      (λ r. record r { available_quantity = pos_part (pos r.available_quantity +ℤ delta) }))

-- The primary key, and the unique constraint on (product_id, warehouse_id)
abbrev pub clashes : Inventory → Inventory → Bool
clashes inventory r = r.id == inventory.id || is_at inventory.product_id inventory.warehouse_id r

abbrev pub add_unless : Inventory → Option Inventory → Action Inventory
add_unless inventory (some _) s = (err integrity_error, s)
add_unless inventory none s = (ok inventory, set_inventory (inventory ∷ s.tables.inventory) s)

unfoldable pub create : Inventory → Action Inventory
create inventory s = add_unless inventory (find (clashes inventory) s.tables.inventory) s

unfoldable pub set_threshold : Uid → Uid → ℕ → St Bool
set_threshold product_id warehouse_id threshold = affects_one (
    execute_update (is_at product_id warehouse_id) (λ r. record r {
      low_stock_threshold = some threshold;
      is_low_stock = leb r.available_quantity threshold;
    }))

-- `low_stock_threshold IS NOT NULL AND available_quantity <= low_stock_threshold`
abbrev pub at_or_below_threshold : Inventory → Bool
at_or_below_threshold r = elim r.low_stock_threshold [
  | none ↦ false
  | some t ↦ leb r.available_quantity t
]

-- `available_quantity > low_stock_threshold`, which is not true of a NULL threshold
abbrev pub above_threshold : Inventory → Bool
above_threshold r = elim r.low_stock_threshold [
  | none ↦ false
  | some t ↦ ltb t r.available_quantity
]

-- The WHERE clause of the flip False -> True.
abbrev pub flips : Uid → Uid → Inventory → Bool
flips product_id warehouse_id r =
    is_at product_id warehouse_id r && (not r.is_low_stock && at_or_below_threshold r)

-- RETURNING available_quantity, low_stock_threshold
abbrev pub returned : Option Inventory → Option (ℕ × ℕ)
returned none = none
returned (some r) = elim r.low_stock_threshold [
  | none ↦ none
  | some t ↦ some (r.available_quantity, t)
]

unfoldable pub try_flip_low_stock : Uid → Uid → St (Option (ℕ × ℕ))
try_flip_low_stock product_id warehouse_id s =
    let rows = s.tables.inventory in
    let test = flips product_id warehouse_id in
    (
      returned (find test rows),
      set_inventory (update_where test (λ r. record r { is_low_stock = true }) rows) s,
    )

unfoldable pub try_reset_low_stock : Uid → Uid → St Bool
try_reset_low_stock product_id warehouse_id = affects_one (
    execute_update (λ r. is_at product_id warehouse_id r && (r.is_low_stock && above_threshold r))
      (λ r. record r { is_low_stock = false }))
