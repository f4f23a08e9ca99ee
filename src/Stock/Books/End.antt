-- ===== src/Stock/Books/End.antt =====
-- The end of one reservation, by a release or a consumption, and the books.
use inventory_reservation_or.Prelude.{◌+◌, ◌≤◌, ◌≡◌, false, none, some, List, arith}
use inventory_reservation_or.Prelude.Int.{pos}
use inventory_reservation_or.Models.{
  Uid, Inventory, InventoryReservation, is_active, InventoryAuditLog,
}
use inventory_reservation_or.Table.{find, update_where}
use inventory_reservation_or.Table.Laws.{find_sound}
use inventory_reservation_or.Repositories.Reservation.{is_active_with}
use inventory_reservation_or.Stock.{
  Consistent, held, holds, seen_at, reserved_at, IsUnique, ledger, available_at,
}
use inventory_reservation_or.Stock.Held.{held-ended, update_where-HasUniqueIds}

-- `r` is a copy of the table's reservation with its id, but perhaps for its status: what an ORM
-- object that was read earlier in the transaction is.
abbrev pub IsCopy : InventoryReservation → List InventoryReservation → Type 0
IsCopy r rows =
    (x : InventoryReservation)
    → find (is_active_with r.id) rows ≡ some x
    → (x.product_id ≡ r.product_id) × (x.warehouse_id ≡ r.warehouse_id) × (x.quantity ≡ r.quantity)

module _ (r : InventoryReservation) (rows : List InventoryReservation) (copy : IsCopy r rows) where
  -- The active reservation that `r` is a copy of holds its quantity of its pair.
  pub copy_holds :
      (p w : Uid) (x : InventoryReservation)
      → find (is_active_with r.id) rows ≡ some x
      → holds p w x ≡ seen_at r.product_id r.warehouse_id p w r.quantity
  copy_holds p w x e = ground (arith, copy x e, find_sound (is_active_with r.id) rows e)

module _ (r : InventoryReservation) (f : InventoryReservation → InventoryReservation)
    (ends : (x : InventoryReservation) → is_active (f x).status ≡ false)
    (same_id : (x : InventoryReservation) → (f x).id ≡ x.id)
    {pending rows : List InventoryReservation} {inventory : List Inventory}
    {audit_logs : List InventoryAuditLog} (h : Consistent pending inventory rows audit_logs)
    (copy : IsCopy r rows) where
  abbrev ended : List InventoryReservation
  ended = update_where (is_active_with r.id) f rows

  -- If there is no active reservation to end, nothing that is held changes.
  pub none-ended :
      find (is_active_with r.id) rows ≡ none → Consistent pending inventory ended audit_logs
  none-ended e = record {
    unique_rows = h.unique_rows;
    unique_ids = update_where-HasUniqueIds _ f same_id rows h.unique_ids;
    balance = λ p w.
        let change = rw e at (held-ended f ends same_id p w r.id rows h.unique_ids).0 in
        omega (arith, h.balance p w, change);
    explained = h.explained;
  }

  module _ (x : InventoryReservation) (e : find (is_active_with r.id) rows ≡ some x) where
    held_less :
        (p w : Uid)
        → held p w ended + seen_at r.product_id r.warehouse_id p w r.quantity ≡ held p w rows
    held_less p w =
        rw (← copy_holds r rows copy p w x e)
          (rw e at (held-ended f ends same_id p w r.id rows h.unique_ids).0)

    -- So the row of the pair has at least its quantity reserved.
    pub enough_reserved : r.quantity ≤ reserved_at r.product_id r.warehouse_id inventory
    enough_reserved =
        ground (arith, held_less r.product_id r.warehouse_id, h.balance r.product_id r.warehouse_id)

    -- The books with the reservation ended, its quantity out of what the row has reserved, and an
    -- entry for what became available.
    pub one_ended :
        {inventory' : List Inventory} {audit_logs' : List InventoryAuditLog}
        → IsUnique inventory'
        → ((p w : Uid)
            → reserved_at p w inventory' + seen_at r.product_id r.warehouse_id p w r.quantity
              ≡ reserved_at p w inventory)
        → ((p w : Uid) → ledger p w audit_logs' ≡ pos (available_at p w inventory'))
        → Consistent pending inventory' ended audit_logs'
    one_ended u less explained = record {
      unique_rows = u;
      unique_ids = update_where-HasUniqueIds _ f same_id rows h.unique_ids;
      balance = λ p w. omega (arith, h.balance p w, held_less p w, less p w);
      explained = explained;
    }
