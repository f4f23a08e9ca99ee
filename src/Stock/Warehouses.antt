-- ===== src/Stock/Warehouses.antt =====
-- The warehouse that `find_best_warehouse` of src/repositories/inventory_repository.py picks.
use inventory_reservation_or.Prelude.{
  ℕ, ◌≤◌, ◌<◌, ◌≡◌, Bool, ◌&&◌, Option, none, some, List, leb, ◌==◌,
}
use inventory_reservation_or.Prelude.Lists.{All}
use inventory_reservation_or.Models.{Uid, Inventory}
use inventory_reservation_or.Session.{Session}
use inventory_reservation_or.Table.{select}
use inventory_reservation_or.Table.Sort.{order_by_desc}

-- The row to reserve from: one of the product with enough, and no such row has more; or none,
-- where every row of the product has too little.
abbrev pub IsBest : Uid → ℕ → List Inventory → Option Inventory → Type 0
IsBest p q rows none = All (λ x. x.product_id ≡ p → x.available_quantity < q) rows
IsBest p q rows (some m) =
    (m.product_id ≡ p)
    × (q ≤ m.available_quantity)
    × All
        (λ x.
          x.product_id ≡ p → q ≤ x.available_quantity → x.available_quantity ≤ m.available_quantity)
        rows

abbrev has_enough : Uid → ℕ → Inventory → Bool
has_enough p q r = r.product_id == p && leb q r.available_quantity

module _ (p : Uid) (q : ℕ) where
  abbrev sorted : List Inventory → List Inventory
  sorted rows = order_by_desc (λ r. r.available_quantity) (select (has_enough p q) rows)
