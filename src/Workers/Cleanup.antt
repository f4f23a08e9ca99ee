-- ===== src/Workers/Cleanup.antt =====
-- src/workers/reservation_cleanup.py. `while True` runs on fuel.
use inventory_reservation_or.Prelude.{
  ℕ, zero, suc, ◌+◌, Option, none, some, List, [], ◌∷◌, if◌then◌else◌,
}
use inventory_reservation_or.Prelude.Int.{pos}
use inventory_reservation_or.Prelude.Lists.{length}
use inventory_reservation_or.Models.{
  Uid, OrderStatus, is_reserved, AuditEventType, Reference, Order, InventoryReservation,
}
use inventory_reservation_or.Session.{Session, St, commit, now}
use inventory_reservation_or.Repositories.Inventory
use inventory_reservation_or.Repositories.Order
use inventory_reservation_or.Repositories.Reservation.{claim_expired_batch}
use inventory_reservation_or.Repositories.Logs.{record_audit}

abbrev pub batch_size : ℕ
batch_size = 100

-- `order is not None and order.status == RESERVED`
abbrev pub expire_if_reserved : Uid → Option Order → St (Unit {0})
expire_if_reserved order_id none s = (tt, s)
expire_if_reserved order_id (some order) s =
    if is_reserved order.status then Order.update_status order_id OrderStatus.expired s else (tt, s)

-- The body of the loop over the claimed reservations.
unfoldable pub expire_one : InventoryReservation → St (Unit {0})
unfolding Inventory.release record_audit Order.get_by_id Order.update_status
expire_one r s =
    let (_, s₁) = Inventory.release r.product_id r.warehouse_id r.quantity s in
    let (_, s₂) =
      record_audit r.product_id r.warehouse_id (pos r.quantity) AuditEventType.reservation_released
        (Reference.to_order r.order_id) s₁ in
    expire_if_reserved r.order_id (Order.get_by_id r.order_id s₂) s₂

unfoldable pub expire_all : List InventoryReservation → St (Unit {0})
expire_all [] s = (tt, s)
expire_all (r ∷ rows) s = let (_, s') = expire_one r s in expire_all rows s'

-- One round: the reservations that it claimed, after which it has committed.
unfoldable pub expire_batch : St (List InventoryReservation)
unfolding now claim_expired_batch expire_all commit
expire_batch s =
    let (t, s₁) = now s in
    let (claimed, s₂) = claim_expired_batch t batch_size s₁ in
    let (_, s₃) = expire_all claimed s₂ in let (_, s₄) = commit s₃ in (claimed, s₄)

-- `none` stands for a loop that is still running.
unfoldable pub expire_loop : ℕ → ℕ → Session → Option (ℕ × Session)
expire_loop zero total_released s = none
expire_loop (suc fuel) total_released s =
    let (claimed, s') = expire_batch s in
    let again = expire_loop fuel (total_released + length claimed) s' in
    elim claimed [ [] ↦ some (total_released, s') | _ ∷ _ ↦ again ]

unfoldable pub expire_reservations : ℕ → Session → Option (ℕ × Session)
expire_reservations fuel = expire_loop fuel 0
