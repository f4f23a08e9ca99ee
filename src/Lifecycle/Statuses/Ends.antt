-- ===== src/Lifecycle/Statuses/Ends.antt =====
-- The statuses of all orders over the worker's second transaction and a round of the clean-up.

use mathlib.Core.Path.{subst}
use inventory_reservation_or.Prelude.{
  ℕ, String, ltb, leb, ◌≡◌, refl, ap, true, false, ◌&&◌, Option, none, some, List, [], ◌∷◌, ◌==◌,
  arith, Bool-cases, inl, inr,
}
use inventory_reservation_or.Prelude.Int.{pos}
use inventory_reservation_or.Models.{
  Uid, Time, Order, OrderStatus, InventoryReservation, AuditEventType, Reference, PaymentResult,
  is_reserved,
}
use inventory_reservation_or.Session.{
  Session, commit, rollback, now, or_raise, raise, ◌>>=◌, index_error, retryable_payment,
}
use inventory_reservation_or.Repositories.Order
use inventory_reservation_or.Repositories.Inventory
use inventory_reservation_or.Repositories.Reservation.{release_claimed, claim_expired_batch}
use inventory_reservation_or.Repositories.Logs.{record_audit, record_dead_letter}
use inventory_reservation_or.Services.Payment.{PaymentOutcome, charge}
use inventory_reservation_or.Workers.Processor.{
  RetryPolicy, Attempt, complete_order, fail_order, schedule_retry, give_up, countdown, finish_with,
  finish_processing,
}
use inventory_reservation_or.Workers.Cleanup.{
  batch_size, expire_if_reserved, expire_one, expire_all, expire_batch,
}
use inventory_reservation_or.Frames.{Rest}
use inventory_reservation_or.Stock.Books.Valid.{IsValid}
use inventory_reservation_or.Stock.Books.Loops.{release_active-Ended, consume_active-Ended}
use inventory_reservation_or.Stock.Books.Settle.{released, consumed}
use inventory_reservation_or.Lifecycle.Statuses.{
  Moves, stays, expired, completed, failed, put_back, row_of, status_in, status_at, written,
  written-Moves, status_in-written, is_reserved-reserved,
}

-- The second transaction on an order that is PROCESSING, as the transaction leaves it and as the
-- end of its session does.
module _ (policy : RetryPolicy) (order_id : Uid) (order : Order) (s : Session) (id : Uid)
    (v : IsValid s) (e : Order.get_by_id order_id s ≡ some order)
    (p : order.status ≡ OrderStatus.processing) where
  -- The order is moved, and any other stays as it is.
  abbrev pub Writes : Option OrderStatus → Type 0
  Writes after =
      Moves true (status_at id s) after × ((order_id == id) ≡ false → after ≡ status_at id s)

  abbrev pub Ends : Session → Type 0
  Ends t = Writes (status_at id (rollback t))

  wrote :
      (status : OrderStatus) (rows : List Order)
      → rows ≡ s.tables.orders
      → Moves true (some OrderStatus.processing) (some status)
      → Writes (status_in id (written order_id status rows))
  unfolding Order.get_by_id
  wrote status rows same m = rw same (
    written-Moves order_id id status s.tables.orders order e (rw p m),
    λ other. rw (status_in-written order_id id status s.tables.orders, other) refl,
  )

  complete-Ends : Ends (complete_order order_id s).1
  unfolding complete_order Order.update_status commit rollback
  complete-Ends =
      wrote OrderStatus.completed (consumed order_id s).tables.orders
        (ap (λ (r : Rest). r.1) (consume_active-Ended order_id s v.consistent).same_rest)
        (completed refl)

  fail-Ends : Ends (fail_order order_id s).1
  unfolding fail_order Order.update_status commit rollback
  fail-Ends =
      wrote OrderStatus.failed (released order_id s).tables.orders
        (ap (λ (r : Rest). r.1) (release_active-Ended order_id s v.consistent).same_rest)
        (failed refl)

  give_up-Ends :
      (attempt : ℕ) (message : String) → Ends (give_up policy order_id attempt message s).1
  unfolding give_up record_dead_letter commit rollback fail_order Order.update_status
  give_up-Ends attempt message = elim (Bool-cases (leb policy.payment_max_attempts attempt)) [
    | inl last ↦ rw last fail-Ends
    | inr more ↦ rw more fail-Ends
  ]

  raised-Ends :
      (delay : Option ℕ) (t : Session)
      → Ends t
      → Ends ((or_raise delay index_error >>= λ d. raise {A = Unit {0}} (retryable_payment d)) t).1
  raised-Ends none t h = h
  raised-Ends (some d) t h = h

  retry-Ends : (attempt : ℕ) → Ends (schedule_retry policy order_id attempt s).1
  unfolding schedule_retry commit Order.update_status rollback
  retry-Ends attempt =
      raised-Ends (countdown policy.payment_retry_backoff_list attempt)
        (commit (Order.update_status order_id OrderStatus.reserved s).1).1
        (wrote OrderStatus.reserved s.tables.orders refl (put_back refl))

  finish_with-Ends :
      (attempt : ℕ) (outcome : PaymentOutcome) (result : PaymentResult)
      → Ends (finish_with policy order_id attempt outcome result s).1
  finish_with-Ends attempt outcome PaymentResult.success = complete-Ends
  finish_with-Ends attempt outcome PaymentResult.failed =
      elim (Bool-cases (outcome.retryable && ltb attempt policy.payment_max_attempts)) [
        | inl again ↦ rw again (retry-Ends attempt)
        | inr last ↦ rw last (give_up-Ends attempt outcome.message)
      ]

  pub finish_processing-Ends :
      (attempt : Attempt) → Ends (finish_processing policy order_id attempt s).1
  unfolding finish_processing
  finish_processing-Ends (attempt, token) =
      let outcome = charge token in finish_with-Ends attempt outcome outcome.result

-- The clean-up writes EXPIRED, and only on orders that are RESERVED.
data Expires (a : Option OrderStatus) : Option OrderStatus → Type 0 where
  kept : Expires a a
  lapsed : a ≡ some OrderStatus.reserved → Expires a (some OrderStatus.expired)

Expires-trans : {a b c : Option OrderStatus} → Expires a b → Expires b c → Expires a c
Expires-trans h kept = h
Expires-trans kept (lapsed e) = lapsed e
Expires-trans (lapsed e) (lapsed f) = lapsed e

Expires-Moves : {a b : Option OrderStatus} → Expires a b → Moves false a b
Expires-Moves kept = stays
Expires-Moves (lapsed e) = rw e expired

module _ (id : Uid) where
  written-Expires :
      (order_id : Uid) (rows : List Order) (order : Order)
      → row_of order_id rows ≡ some order
      → is_reserved order.status ≡ true
      → Expires (status_in id rows) (status_in id (written order_id OrderStatus.expired rows))
  written-Expires order_id rows order e r = elim (Bool-cases (order_id == id)) [
    | inl same ↦
        let ids : id ≡ order_id = ground arith in
        let status = is_reserved-reserved order.status r in
        rw (status_in-written order_id id OrderStatus.expired rows, same, ids, e, status)
          (lapsed refl)
    | inr other ↦ rw (status_in-written order_id id OrderStatus.expired rows, other) kept
  ]

  expire_if-Expires :
      (order_id : Uid) (found : Option Order) (s : Session)
      → Order.get_by_id order_id s ≡ found
      → Expires (status_at id s) (status_at id (expire_if_reserved order_id found s).1)
  unfolding Order.get_by_id Order.update_status
  expire_if-Expires order_id none s e = kept
  expire_if-Expires order_id (some order) s e = elim (Bool-cases (is_reserved order.status)) [
    | inl r ↦ rw r (written-Expires order_id s.tables.orders order e r)
    | inr r ↦ rw r kept
  ]

  expire_one-Expires :
      (r : InventoryReservation) (s : Session)
      → Expires (status_at id s) (status_at id (expire_one r s).1)
  unfolding expire_one Inventory.release record_audit
  expire_one-Expires r s =
      let s₁ = (Inventory.release r.product_id r.warehouse_id r.quantity s).1 in
      let s₂ =
        (record_audit r.product_id r.warehouse_id (pos r.quantity)
          AuditEventType.reservation_released (Reference.to_order r.order_id) s₁).1 in
      expire_if-Expires r.order_id (Order.get_by_id r.order_id s₂) s₂ refl

  expire_all-Expires :
      (claimed : List InventoryReservation) (s : Session)
      → Expires (status_at id s) (status_at id (expire_all claimed s).1)
  unfolding expire_all
  expire_all-Expires [] s = kept
  expire_all-Expires (r ∷ claimed) s =
      Expires-trans (expire_one-Expires r s) (expire_all-Expires claimed (expire_one r s).1)

  release_claimed-orders :
      (t : Time) (ids : List Uid) (s : Session)
      → (release_claimed t ids s).1.tables.orders ≡ s.tables.orders
  unfolding release_claimed
  release_claimed-orders t [] s = refl
  release_claimed-orders t (i ∷ ids) s = refl

  pub expire_batch-Moves :
      (s : Session) → Moves false (status_at id s) (status_at id (expire_batch s).1)
  unfolding expire_batch now claim_expired_batch commit
  expire_batch-Moves s =
      let (t, s₁) = now s in
      let (claimed, s₂) = claim_expired_batch t batch_size s₁ in
      let same : s₂.tables.orders ≡ s.tables.orders = release_claimed-orders t _ s₁ in
      Expires-Moves (
        subst
          (λ (rows : List Order).
            Expires (status_in id rows) (status_at id (expire_all claimed s₂).1))
          same (expire_all-Expires claimed s₂))
