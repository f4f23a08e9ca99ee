-- ===== src/Services/Inventory.antt =====
-- src/services/inventory_service.py, the parts that do not commit: reserve, release, consume and
-- the detection of low stock.
use inventory_reservation_or.Prelude.{ℕ, Bool, true, false, Option, none, some, if◌then◌else◌}
use inventory_reservation_or.Prelude.Int.{ℤ, pos, neg, is_negative, is_positive}
use inventory_reservation_or.Models.{Uid, AuditEventType, Reference, Payload, InventoryReservation}
use inventory_reservation_or.Session.{St}
use inventory_reservation_or.Repositories.Inventory
use inventory_reservation_or.Repositories.Reservation
use inventory_reservation_or.Repositories.Logs.{record_audit, create_alert, create_event}

-- The alert and its outbox event, if the flip reported a crossing.
unfoldable pub alert_on : Uid → Uid → Option (ℕ × ℕ) → St (Unit {0})
unfolding create_alert create_event
alert_on product_id warehouse_id none s = (tt, s)
alert_on product_id warehouse_id (some (quantity, threshold)) s =
    let (alert, s₁) = create_alert product_id warehouse_id quantity threshold s in
    let (_, s₂) =
      create_event "low_stock_alert" alert.id "LOW_STOCK_ALERT_CREATED"
        (Payload.alert_payload alert.id product_id warehouse_id quantity threshold) s₁ in
    (tt, s₂)

unfoldable pub flip_and_alert : Uid → Uid → St (Unit {0})
unfolding alert_on Inventory.try_flip_low_stock
flip_and_alert product_id warehouse_id s =
    let (flip, s₁) = Inventory.try_flip_low_stock product_id warehouse_id s in
    alert_on product_id warehouse_id flip s₁

unfoldable pub reset : Uid → Uid → St (Unit {0})
unfolding Inventory.try_reset_low_stock
reset product_id warehouse_id s =
    let (_, s₁) = Inventory.try_reset_low_stock product_id warehouse_id s in (tt, s₁)

-- `_check_low_stock_transition`
unfoldable pub check_low_stock_transition : Uid → Uid → ℤ → St (Unit {0})
unfolding flip_and_alert reset
check_low_stock_transition product_id warehouse_id delta s =
    if is_negative delta
    then flip_and_alert product_id warehouse_id s
    else if is_positive delta
    then reset product_id warehouse_id s
    else (tt, s)

unfoldable pub reserve : Uid → Uid → ℕ → Uid → St Bool
reserve product_id warehouse_id quantity order_id s =
    let (done, s₁) = Inventory.try_reserve product_id warehouse_id quantity s in
    if done
    then (let (_, s₂) =
          record_audit product_id warehouse_id (neg quantity) AuditEventType.inventory_reserved
            (Reference.to_order order_id) s₁ in
        let (_, s₃) = check_low_stock_transition product_id warehouse_id (neg quantity) s₂ in
        (true, s₃))
    else (false, s₁)

unfoldable pub release_reservation : InventoryReservation → Uid → St Bool
release_reservation r reference_id s =
    let (marked, s₁) = Reservation.mark_released r.id s in
    if marked
    then (let (_, s₂) = Inventory.release r.product_id r.warehouse_id r.quantity s₁ in
        let (_, s₃) =
          record_audit r.product_id r.warehouse_id (pos r.quantity)
            AuditEventType.reservation_released (Reference.to_order reference_id) s₂ in
        let (_, s₄) = check_low_stock_transition r.product_id r.warehouse_id (pos r.quantity) s₃ in
        (true, s₄))
    else (false, s₁)

unfoldable pub consume_reservation : InventoryReservation → Uid → St Bool
consume_reservation r order_id s =
    let (marked, s₁) = Reservation.mark_consumed r.id s in
    if marked
    then (let (_, s₂) = Inventory.consume r.product_id r.warehouse_id r.quantity s₁ in
        let (_, s₃) =
          record_audit r.product_id r.warehouse_id (neg r.quantity) AuditEventType.order_completed
            (Reference.to_order order_id) s₂ in
        (true, s₃))
    else (false, s₁)
