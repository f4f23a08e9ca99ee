-- ===== src/Frames.antt =====
-- What the operations on stock leave alone: all tables but the inventory, the reservations and
-- the logs, and what is committed.
use inventory_reservation_or.Prelude.{ℕ, ◌≡◌, refl, Option, none, some, List, Bool-cases, inl, inr}
use inventory_reservation_or.Prelude.Int.{ℤ, pos, neg, is_negative, is_positive}
use inventory_reservation_or.Models.{
  Uid, Order, OrderItem, Product, Warehouse, IdempotencyKey, InventoryReservation,
  ReservationStatus,
}
use inventory_reservation_or.Session.{Session, Tables}
use inventory_reservation_or.Table.{update_where}
use inventory_reservation_or.Repositories.Inventory
use inventory_reservation_or.Repositories.Reservation
use inventory_reservation_or.Repositories.Reservation.{is_active_with, release_at}
use inventory_reservation_or.Repositories.Logs.{record_audit}
use inventory_reservation_or.Services.Inventory.{
  alert_on, check_low_stock_transition, reserve, release_reservation, consume_reservation,
}

abbrev pub Rest : Type 0
Rest = Tables × List Order × List OrderItem × List Product × List Warehouse × List IdempotencyKey

abbrev pub rest : Session → Rest
rest s = (
  s.committed, s.tables.orders, s.tables.order_items, s.tables.products, s.tables.warehouses,
  s.tables.idempotency_keys,
)

abbrev pub Frame : Type 0
Frame = Rest × List InventoryReservation

-- The rest with the reservations.
abbrev pub frame : Session → Frame
frame s = (rest s, s.tables.reservations)

module _ (p w : Uid) where
  alert_on-frame : (flip : Option (ℕ × ℕ)) (s : Session) → frame (alert_on p w flip s).1 ≡ frame s
  unfolding alert_on
  alert_on-frame none s = refl
  alert_on-frame (some (q, t)) s = refl

  pub check-frame : (d : ℤ) (s : Session) → frame (check_low_stock_transition p w d s).1 ≡ frame s
  unfolding check_low_stock_transition
  check-frame d s = elim (Bool-cases (is_negative d)) [
    | inl e ↦ let (flip, s₁) = Inventory.try_flip_low_stock p w s in rw e (alert_on-frame flip s₁)
    | inr e ↦ elim (Bool-cases (is_positive d)) [ inl e' ↦ rw (e, e') | inr e' ↦ rw (e, e') ]
  ]

  pub reserve-frame :
      (q : ℕ) (order_id : Uid) (s : Session) → frame (reserve p w q order_id s).1 ≡ frame s
  unfolding reserve Inventory.try_reserve record_audit
  reserve-frame q order_id s = elim (Bool-cases (Inventory.try_reserve p w q s).0) [
    | inl e ↦ rw e (check-frame (neg q) _)
    | inr e ↦ rw e
  ]

-- What `mark_consumed` writes.
abbrev pub consume_status : InventoryReservation → InventoryReservation
consume_status x = record x { status = ReservationStatus.consumed }

module _ (r : InventoryReservation) (order_id : Uid) (s : Session) where
  pub release_reservation-frame : frame (release_reservation r order_id s).1 ≡ (
    rest s,
    update_where (is_active_with r.id) (release_at (s.clock s.ticks)) s.tables.reservations,
  )
  unfolding release_reservation Reservation.mark_released Inventory.release record_audit
  release_reservation-frame = elim (Bool-cases (Reservation.mark_released r.id s).0) [
    | inl e ↦ rw e (check-frame r.product_id r.warehouse_id (pos r.quantity) _)
    | inr e ↦ rw e
  ]

  pub consume_reservation-frame :
      frame (consume_reservation r order_id s).1
      ≡ (rest s, update_where (is_active_with r.id) consume_status s.tables.reservations)
  unfolding consume_reservation Reservation.mark_consumed Inventory.consume record_audit
  consume_reservation-frame = elim (Bool-cases (Reservation.mark_consumed r.id s).0) [
    | inl e ↦ rw e
    | inr e ↦ rw e
  ]
