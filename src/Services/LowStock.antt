-- ===== src/Services/LowStock.antt =====
-- src/services/low_stock_service.py. A threshold is an unsigned number in the request schema; the
-- service's own test `threshold < 0` is kept, on the signed number that it takes.
use inventory_reservation_or.Prelude.{ℕ, true, Option, none, some, List, [], ◌∷◌}
use inventory_reservation_or.Prelude.Int.{ℤ, pos_part, is_negative}
use inventory_reservation_or.Models.{Uid, Inventory, LowStockAlert}
use inventory_reservation_or.Session.{
  Session, Action, gets, lift, or_raise, raise_if, ◌>>=◌, ◌>>◌, commit, generate_id,
  invalid_request, product_not_found, warehouse_not_found,
}
use inventory_reservation_or.Repositories.Inventory
use inventory_reservation_or.Repositories.Catalog.{product_by_id, warehouse_by_id}
use inventory_reservation_or.Repositories.Logs.{list_recent}
use inventory_reservation_or.Services.Adjustments.{reread}

abbrev pub low_row : Uid → Uid → Uid → ℕ → Inventory
low_row id product_id warehouse_id threshold = record {
  id = id;
  product_id = product_id;
  warehouse_id = warehouse_id;
  available_quantity = 0;
  reserved_quantity = 0;
  low_stock_threshold = some threshold;
  is_low_stock = true;
}

-- The branch on whether the (product, warehouse) pair has a row yet.
unfoldable pub write_threshold : Uid → Uid → ℕ → Option Inventory → Action Inventory
unfolding generate_id Inventory.create Inventory.set_threshold
write_threshold product_id warehouse_id threshold none = do
  id ← lift generate_id
  Inventory.create (low_row id product_id warehouse_id threshold)
write_threshold product_id warehouse_id threshold (some row) = do
  lift (Inventory.set_threshold product_id warehouse_id threshold)
  gets (reread row)

-- db.commit() and db.refresh(row)
abbrev pub commit_row : Inventory → Action Inventory
commit_row row = do lift commit; gets (reread row)

unfoldable pub set_threshold : Uid → Uid → ℤ → Action Inventory
unfolding product_by_id warehouse_by_id Inventory.get write_threshold commit
set_threshold product_id warehouse_id threshold = do
  raise_if (is_negative threshold) (invalid_request "Low-stock threshold must be non-negative")
  or_raise (← gets (product_by_id product_id)) (product_not_found (product_id ∷ []))
  or_raise (← gets (warehouse_by_id warehouse_id)) (warehouse_not_found warehouse_id)
  row ←
      write_threshold product_id warehouse_id (pos_part threshold)
        (← gets (Inventory.get product_id warehouse_id))
  commit_row row

unfoldable pub list_alerts : Option Uid → ℕ → Session → List LowStockAlert
unfolding list_recent
list_alerts warehouse_id limit s = list_recent warehouse_id limit s
