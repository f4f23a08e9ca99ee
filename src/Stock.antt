-- ===== src/Stock.antt =====
-- What the stock of a (product, warehouse) pair is: the quantities of its row, and the quantity
-- that the active reservations hold.
pub mod Rows
pub mod Moves
pub mod Held
pub mod Books
pub mod Warehouses
pub mod Alarm
pub mod Level
pub mod Shelf
use inventory_reservation_or.Prelude.{
  ℕ, ◌+◌, ◌≡◌, Bool, true, false, ◌&&◌, Option, none, some, List, [], ◌∷◌, ◌==◌, if◌then◌else◌,
}
use inventory_reservation_or.Prelude.Int.{ℤ, pos, ◌+ℤ◌}
use inventory_reservation_or.Models.{
  Uid, Inventory, InventoryReservation, InventoryAuditLog, AuditEventType, is_active,
}
use inventory_reservation_or.Session.{Tables}
use inventory_reservation_or.Table.{find}
use inventory_reservation_or.Repositories.Inventory.{is_at}

-- No two rows are for the same product and warehouse.
abbrev pub IsUnique : List Inventory → Type 0
IsUnique [] = Unit
IsUnique (r ∷ rows) = (find (is_at r.product_id r.warehouse_id) rows ≡ none) × IsUnique rows

abbrev pub row_at : Uid → Uid → List Inventory → Option Inventory
row_at p w rows = find (is_at p w) rows

abbrev pub available_of : Option Inventory → ℕ
available_of none = 0
available_of (some r) = r.available_quantity

abbrev pub reserved_of : Option Inventory → ℕ
reserved_of none = 0
reserved_of (some r) = r.reserved_quantity

abbrev pub available_at : Uid → Uid → List Inventory → ℕ
available_at p w rows = available_of (row_at p w rows)

abbrev pub reserved_at : Uid → Uid → List Inventory → ℕ
reserved_at p w rows = reserved_of (row_at p w rows)

abbrev pub is_for : Uid → Uid → InventoryReservation → Bool
is_for p w r = r.product_id == p && r.warehouse_id == w

-- The quantity that one reservation holds of the pair.
abbrev pub holds : Uid → Uid → InventoryReservation → ℕ
holds p w r = if is_active r.status && is_for p w r then r.quantity else 0

abbrev pub held : Uid → Uid → List InventoryReservation → ℕ
held p w [] = 0
held p w (r ∷ rows) = holds p w r + held p w rows

-- A quantity of the pair (p, w), as seen at the pair (p', w').
abbrev pub seen_at : Uid → Uid → Uid → Uid → ℕ → ℕ
seen_at p w p' w' q = if p == p' && w == w' then q else 0

-- No two reservations have the same id.
abbrev pub HasUniqueIds : List InventoryReservation → Type 0
HasUniqueIds [] = Unit
HasUniqueIds (r ∷ rows) = (find (λ x. x.id == r.id) rows ≡ none) × HasUniqueIds rows

-- The audit events that record a change of `available_quantity`: all but the completion of an
-- order, whose change was recorded when it was reserved.
abbrev pub moves_available : AuditEventType → Bool
moves_available AuditEventType.order_completed = false
moves_available _ = true

-- What one audit entry says of the available quantity of a pair, and what all of them say.
abbrev pub posted : Uid → Uid → InventoryAuditLog → ℤ
posted p w e =
    if moves_available e.type && (e.product_id == p && e.warehouse_id == w) then e.change else pos 0

abbrev pub ledger : Uid → Uid → List InventoryAuditLog → ℤ
ledger p w [] = pos 0
ledger p w (e ∷ entries) = posted p w e +ℤ ledger p w entries

-- The books agree: one row to a pair, one reservation to an id, what is reserved is what the
-- active reservations hold (with those that the open transaction has yet to write, `pending`),
-- and the audit log explains what is available.
pub record Consistent (pending : List InventoryReservation) (inventory : List Inventory)
    (reservations : List InventoryReservation) (audit_logs : List InventoryAuditLog) : Type 0 where
  pub unique_rows : IsUnique inventory
  pub unique_ids : HasUniqueIds reservations
  pub balance : (p w : Uid) → reserved_at p w inventory ≡ held p w reservations + held p w pending
  pub explained : (p w : Uid) → ledger p w audit_logs ≡ pos (available_at p w inventory)

abbrev pub IsConsistent : List InventoryReservation → Tables → Type 0
IsConsistent pending t = Consistent pending t.inventory t.reservations t.audit_logs
