-- ===== src/Stock/Books/Release.antt =====
-- `release_reservation` and `consume_reservation` of src/services/inventory_service.py, on copies of
-- reservations, and the books.
use inventory_reservation_or.Prelude.{
  ◌≡◌, refl, true, false, ◌&&◌, Option, List, arith, ◌==◌, Option-cases, inl, inr,
}
use inventory_reservation_or.Prelude.Int.{pos}
use inventory_reservation_or.Models.{Uid, InventoryReservation, ReservationStatus}
use inventory_reservation_or.Session.{Session, now}
use inventory_reservation_or.Table.{find}
use inventory_reservation_or.Repositories.Inventory
use inventory_reservation_or.Repositories.Reservation
use inventory_reservation_or.Repositories.Reservation.{is_active_with, release_at}
use inventory_reservation_or.Repositories.Logs.{record_audit}
use inventory_reservation_or.Services.Inventory.{release_reservation, consume_reservation}
use inventory_reservation_or.Stock.{IsConsistent}
use inventory_reservation_or.Stock.Held.{held-ended, found_one}
use inventory_reservation_or.Stock.Moves.{
  release_moves, release-IsUnique, consume_moves, consume-IsUnique,
}
use inventory_reservation_or.Stock.Books.Flags.{check-IsConsistent}
use inventory_reservation_or.Stock.Books.Posting.{post_up, post_none}
use inventory_reservation_or.Stock.Books.End.{IsCopy, none-ended, one_ended, enough_reserved}

abbrev consume_status : InventoryReservation → InventoryReservation
consume_status x = record x { status = ReservationStatus.consumed }

module _ (r : InventoryReservation) (reference_id : Uid) (s : Session)
    {pending : List InventoryReservation} (h : IsConsistent pending s.tables)
    (copy : IsCopy r s.tables.reservations) where
  abbrev found : Option InventoryReservation
  found = find (is_active_with r.id) s.tables.reservations

  pub mark_released-eq : (Reservation.mark_released r.id s).0 ≡ (found_one found == 1)
  unfolding Reservation.mark_released
  mark_released-eq =
      rw
        (held-ended (release_at 0) (λ x. refl) (λ x. refl) 0 0 r.id s.tables.reservations
          h.unique_ids).1

  mark_consumed-eq : (Reservation.mark_consumed r.id s).0 ≡ (found_one found == 1)
  unfolding Reservation.mark_consumed
  mark_consumed-eq =
      rw
        (held-ended consume_status (λ x. refl) (λ x. refl) 0 0 r.id s.tables.reservations
          h.unique_ids).1

  pub release_reservation-IsConsistent :
      IsConsistent pending (release_reservation r reference_id s).1.tables
  unfolding release_reservation Reservation.mark_released Inventory.release record_audit now
  release_reservation-IsConsistent = elim (Option-cases found) [
    | inl e ↦
        let marked : (Reservation.mark_released r.id s).0 ≡ false = rw e at mark_released-eq in
        rw marked (none-ended r (release_at _) (λ x. refl) (λ x. refl) h copy e)
    | inr (x, e) ↦
        let marked : (Reservation.mark_released r.id s).0 ≡ true = rw e at mark_released-eq in
        let f = release_at (s.clock s.ticks) in
        let enough = enough_reserved r f (λ x. refl) (λ x. refl) h copy x e in
        let moves = release_moves r.product_id r.warehouse_id r.quantity s h.unique_rows enough in
        rw marked (
          check-IsConsistent r.product_id r.warehouse_id (pos r.quantity) _ (
            one_ended r f (λ x. refl) (λ x. refl) h copy x e
              (release-IsUnique r.product_id r.warehouse_id r.quantity s h.unique_rows)
              (λ p w. omega (arith, (moves p w).0))
              (λ p w.
                post_up (r.product_id == p && r.warehouse_id == w) r.quantity _ _ _
                  (h.explained p w) (moves p w).1)))
  ]

  pub consume_reservation-IsConsistent :
      IsConsistent pending (consume_reservation r reference_id s).1.tables
  unfolding consume_reservation Reservation.mark_consumed Inventory.consume record_audit
  consume_reservation-IsConsistent = elim (Option-cases found) [
    | inl e ↦
        let marked : (Reservation.mark_consumed r.id s).0 ≡ false = rw e at mark_consumed-eq in
        rw marked (none-ended r consume_status (λ x. refl) (λ x. refl) h copy e)
    | inr (x, e) ↦
        let marked : (Reservation.mark_consumed r.id s).0 ≡ true = rw e at mark_consumed-eq in
        let enough = enough_reserved r consume_status (λ x. refl) (λ x. refl) h copy x e in
        let moves = consume_moves r.product_id r.warehouse_id r.quantity s h.unique_rows enough in
        rw marked (
          one_ended r consume_status (λ x. refl) (λ x. refl) h copy x e
            (consume-IsUnique r.product_id r.warehouse_id r.quantity s h.unique_rows)
            (λ p w. omega (arith, (moves p w).0))
            (λ p w. post_none _ _ _ (h.explained p w) (moves p w).1))
  ]
