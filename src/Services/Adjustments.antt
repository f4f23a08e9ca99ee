-- ===== src/Services/Adjustments.antt =====
-- src/services/inventory_service.py: the two operations behind the inventory endpoints.
use mathlib.Core.Option.{get_or}
use inventory_reservation_or.Prelude.{
  fit, ℕ, String, [], ◌∷◌, false, not, Option, none, some, List, map, if◌then◌else◌,
}
use inventory_reservation_or.Prelude.Int.{pos_part, is_negative}
use inventory_reservation_or.Models.{
  Uid, AuditEventType, Reference, Inventory, InventoryAdjustmentRequest,
}
use inventory_reservation_or.Session.{
  data_error, Session, Action, gets, lift, or_raise, raise_if, ◌>>=◌, ◌>>◌, commit, generate_id,
  product_not_found, warehouse_not_found, invalid_request,
}
use inventory_reservation_or.Repositories.Inventory.{
  get, list_for_product, create, adjust_available,
}
use inventory_reservation_or.Repositories.Catalog.{product_by_id, warehouse_by_id}
use inventory_reservation_or.Repositories.Logs.{record_audit}
use inventory_reservation_or.Services.Inventory.{check_low_stock_transition}

-- `WarehouseInventoryLine` of src/schemas/inventory.py
pub record WarehouseInventoryLine : Type 0 where
  pub warehouse_id : Uid
  pub available : ℕ
  pub reserved : ℕ

abbrev pub to_line : Inventory → WarehouseInventoryLine
to_line r = record {
  warehouse_id = r.warehouse_id;
  available = r.available_quantity;
  reserved = r.reserved_quantity;
}

unfoldable pub get_inventory_for_product : Uid → Action (List WarehouseInventoryLine)
unfolding product_by_id list_for_product
get_inventory_for_product product_id = do
  or_raise (← gets (product_by_id product_id)) (product_not_found (product_id ∷ []))
  gets (λ s. map to_line (list_for_product product_id s))

abbrev pub new_row : Uid → Uid → Uid → ℕ → Inventory
new_row id product_id warehouse_id quantity = record {
  id = id;
  product_id = product_id;
  warehouse_id = warehouse_id;
  available_quantity = quantity;
  reserved_quantity = 0;
  low_stock_threshold = none;
  is_low_stock = false;
}

abbrev pub missing_row_message : String
missing_row_message = "Cannot apply a negative adjustment to inventory that does not exist yet"

abbrev pub below_zero_message : String
below_zero_message = "Adjustment would drive available inventory below zero"

-- db.refresh(row)
abbrev pub reread : Inventory → Session → Inventory
reread row s = get_or (get row.product_id row.warehouse_id s) row

-- The branch on whether the (product, warehouse) pair has a row yet.
unfoldable pub change_stock : InventoryAdjustmentRequest → Option Inventory → Action Inventory
unfolding create generate_id adjust_available check_low_stock_transition get
change_stock payload none = do
  raise_if (is_negative payload.quantity) (invalid_request missing_row_message)
  id ← lift generate_id
  create (new_row id payload.product_id payload.warehouse_id (pos_part payload.quantity))
change_stock payload (some row) = do
  done ← lift (adjust_available payload.product_id payload.warehouse_id payload.quantity)
  raise_if (not done) (invalid_request below_zero_message)
  lift (check_low_stock_transition payload.product_id payload.warehouse_id payload.quantity)
  gets (reread row)

-- The rest of an adjustment, once the stock is changed. The reason goes into the column
-- `reference_id` of the audit log, a String(64).
unfoldable pub log_adjustment : InventoryAdjustmentRequest → Inventory → Action Inventory
unfolding record_audit commit
log_adjustment payload row = do
  reference ← or_raise (fit 64 payload.reason) data_error
  let event_type =
      if is_negative payload.quantity
      then AuditEventType.stock_removed
      else AuditEventType.stock_added
  lift (
      record_audit payload.product_id payload.warehouse_id payload.quantity event_type
        (Reference.reason reference))
  lift commit
  gets (reread row)

unfoldable pub create_adjustment : InventoryAdjustmentRequest → Action Inventory
unfolding product_by_id warehouse_by_id get change_stock log_adjustment
create_adjustment payload = do
  or_raise (← gets (product_by_id payload.product_id)) (product_not_found (payload.product_id ∷ []))
  or_raise (← gets (warehouse_by_id payload.warehouse_id))
      (warehouse_not_found payload.warehouse_id)
  row ← change_stock payload (← gets (get payload.product_id payload.warehouse_id))
  log_adjustment payload row
