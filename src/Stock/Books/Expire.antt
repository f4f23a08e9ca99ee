-- ===== src/Stock/Books/Expire.antt =====
-- A batch of `expire_reservations` in src/workers/reservation_cleanup.py, and the books.
use inventory_reservation_or.Prelude.{
  ℕ, ◌+◌, ◌≤◌, ◌≡◌, refl, ◌&&◌, Option, none, some, List, [], ◌∷◌, map, arith, ◌==◌, Bool-cases,
  inl, inr,
}
use inventory_reservation_or.Prelude.Lists.{take}
use inventory_reservation_or.Models.{Uid, Time, Order, InventoryReservation, is_reserved}
use inventory_reservation_or.Session.{Session, now}
use inventory_reservation_or.Table.{select, update_where}
use inventory_reservation_or.Repositories.Inventory
use inventory_reservation_or.Repositories.Order
use inventory_reservation_or.Repositories.Reservation.{
  is_among, ids_of, release_at, has_expired, release_claimed, claim_expired_batch,
}
use inventory_reservation_or.Repositories.Logs.{record_audit}
use inventory_reservation_or.Workers.Cleanup.{
  batch_size, expire_if_reserved, expire_one, expire_all, expire_batch,
}
use inventory_reservation_or.Stock.{IsConsistent, held, reserved_at}
use inventory_reservation_or.Stock.Held.{update_where-HasUniqueIds}
use inventory_reservation_or.Stock.Moves.{release_moves, release-IsUnique}
use inventory_reservation_or.Stock.Books.Posting.{post_up}
use inventory_reservation_or.Stock.Books.Claim.{as_active, held-claimed}
use inventory_reservation_or.Stock.Books.Valid.{IsValid, commit-IsValid}

-- The order's status is no part of the books.
expire_if_reserved-IsConsistent :
    {pending : List InventoryReservation} (order_id : Uid) (found : Option Order) (s : Session)
    → IsConsistent pending s.tables
    → IsConsistent pending (expire_if_reserved order_id found s).1.tables
unfolding Order.update_status
expire_if_reserved-IsConsistent order_id none s h = h
expire_if_reserved-IsConsistent order_id (some order) s h =
    elim (Bool-cases (is_reserved order.status)) [
      | inl yes_reserved ↦ rw yes_reserved h
      | inr other ↦ rw other h
    ]

module _ (r : InventoryReservation) (pending : List InventoryReservation) (s : Session)
    (h : IsConsistent (as_active r ∷ pending) s.tables) where
  enough : r.quantity ≤ reserved_at r.product_id r.warehouse_id s.tables.inventory
  enough = ground (arith, h.balance r.product_id r.warehouse_id)

  -- The stock of one claimed reservation is given back.
  expire_one-IsConsistent : IsConsistent pending (expire_one r s).1.tables
  unfolding expire_one record_audit Inventory.release
  expire_one-IsConsistent =
      let moves = release_moves r.product_id r.warehouse_id r.quantity s h.unique_rows enough in
      expire_if_reserved-IsConsistent r.order_id _ _ (record {
        unique_rows = release-IsUnique r.product_id r.warehouse_id r.quantity s h.unique_rows;
        unique_ids = h.unique_ids;
        balance = λ p w. omega (arith, h.balance p w, (moves p w).0);
        explained = λ p w.
            post_up (r.product_id == p && r.warehouse_id == w) r.quantity _ _ _ (h.explained p w)
              (moves p w).1;
      })

expire_all-IsConsistent :
    (claimed : List InventoryReservation) (s : Session)
    → IsConsistent (map as_active claimed) s.tables
    → IsConsistent [] (expire_all claimed s).1.tables
unfolding expire_all
expire_all-IsConsistent [] s h = h
expire_all-IsConsistent (r ∷ claimed) s h =
    expire_all-IsConsistent claimed (expire_one r s).1
      (expire_one-IsConsistent r (map as_active claimed) s h)

release_claimed-IsConsistent :
    (t : Time) (ids : List Uid) (s : Session)
    → IsConsistent [] s.tables
    → ((p w : Uid)
        → let updated =
            update_where (λ r. is_among ids r.id) (release_at t) s.tables.reservations in
          held p w updated + held p w (map as_active (select (λ r. is_among ids r.id) updated))
          ≡ held p w s.tables.reservations)
    → let (claimed, s') = release_claimed t ids s in IsConsistent (map as_active claimed) s'.tables
unfolding release_claimed
release_claimed-IsConsistent t [] s h holds = h
release_claimed-IsConsistent t (id ∷ ids) s h holds = record {
  unique_rows = h.unique_rows;
  unique_ids =
      update_where-HasUniqueIds _ (release_at t) (λ r. refl) s.tables.reservations h.unique_ids;
  balance = λ p w. omega (arith, h.balance p w, holds p w);
  explained = h.explained;
}

claimed-IsConsistent :
    (t : Time) (limit : ℕ) (s : Session)
    → IsConsistent [] s.tables
    → let (claimed, s') = claim_expired_batch t limit s in
      IsConsistent (map as_active claimed) s'.tables
unfolding claim_expired_batch
claimed-IsConsistent t limit s h =
    release_claimed-IsConsistent t
      (ids_of (take limit (select (has_expired t) s.tables.reservations))) s h
      (λ p w. held-claimed p w t limit s.tables.reservations h.unique_ids)

-- A round of the clean-up, from a session with agreeing books and nothing uncommitted, leaves the
-- books in agreement and nothing uncommitted.
pub expire_batch-IsValid : (s : Session) → IsValid s → IsValid (expire_batch s).1
unfolding expire_batch now
expire_batch-IsValid s v =
    let (t, s₁) = now s in
    let (claimed, s₂) = claim_expired_batch t batch_size s₁ in
    commit-IsValid (expire_all claimed s₂).1
      (expire_all-IsConsistent claimed s₂ (claimed-IsConsistent t batch_size s₁ v.consistent))
