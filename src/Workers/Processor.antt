-- ===== src/Workers/Processor.antt =====
-- src/workers/order_processor.py. `process_order` commits in the middle, so it is the composition
-- of `start_processing`, the charge, and `finish_processing`; other transactions may run between.
use inventory_reservation_or.Prelude.{
  ℕ, ◌+◌, ◌-◌, String, not, ◌&&◌, Option, none, some, List, [], ◌∷◌, ltb, leb, if◌then◌else◌,
}
use inventory_reservation_or.Prelude.Lists.{get_elem?, length}
use inventory_reservation_or.Models.{
  Uid, OrderStatus, is_reserved, PaymentResult, Order, InventoryReservation,
}
use inventory_reservation_or.Session.{
  Session, St, Action, Result, pure, raise, lift, or_raise, ◌>>=◌, ◌>>◌, commit, rollback,
  index_error, retryable_payment,
}
use inventory_reservation_or.Repositories.Order
use inventory_reservation_or.Repositories.Reservation.{list_active_for_order}
use inventory_reservation_or.Repositories.Logs.{record_dead_letter}
use inventory_reservation_or.Services.Inventory.{consume_reservation}
use inventory_reservation_or.Services.Payment.{PaymentOutcome, charge}
use inventory_reservation_or.Services.Orders.Cancel.{release_all}

-- `settings.payment_max_attempts` and `settings.payment_retry_backoff_list`
pub record RetryPolicy : Type 0 where
  pub payment_max_attempts : ℕ
  pub payment_retry_backoff_list : List ℕ

-- What the first transaction hands on: the attempt's number and the payment token.
abbrev pub Attempt : Type 0
Attempt = ℕ × String

-- The guard `order is None or order.status != RESERVED`, and the move to PROCESSING.
abbrev pub start_on : Uid → Option Order → St (Option Attempt)
start_on order_id none s = let (_, s₁) = commit s in (none, s₁)
start_on order_id (some order) s =
    if not (is_reserved order.status)
    then (let (_, s₁) = commit s in (none, s₁))
    else (let attempt = order.processing_attempts + 1 in
        let (_, s₁) = Order.update_attempts order_id attempt s in
        let (_, s₂) = Order.update_status order_id OrderStatus.processing s₁ in
        let (_, s₃) = commit s₂ in (some (attempt, order.payment_token), s₃))

unfoldable pub start_processing : Uid → St (Option Attempt)
unfolding Order.get_by_id Order.update_attempts Order.update_status commit
start_processing order_id s = start_on order_id (Order.get_by_id order_id s) s

unfoldable pub consume_all : Uid → List InventoryReservation → St (Unit {0})
consume_all order_id [] s = (tt, s)
consume_all order_id (r ∷ rows) s =
    let (_, s') = consume_reservation r order_id s in consume_all order_id rows s'

-- `_complete_order`
unfoldable pub complete_order : Uid → St (Unit {0})
unfolding list_active_for_order Order.update_status commit
complete_order order_id s =
    let (_, s₁) = consume_all order_id (list_active_for_order order_id s) s in
    let (_, s₂) = Order.update_status order_id OrderStatus.completed s₁ in commit s₂

-- `_fail_order`
unfoldable pub fail_order : Uid → St (Unit {0})
unfolding list_active_for_order Order.update_status commit
fail_order order_id s =
    let (_, s₁) = release_all order_id (list_active_for_order order_id s) s in
    let (_, s₂) = Order.update_status order_id OrderStatus.failed s₁ in commit s₂

abbrev last {ℓ} : {A : Type ℓ} → List A → Option A
last [] = none
last (x ∷ []) = some x
last (x ∷ y ∷ xs) = last (y ∷ xs)

-- `backoff[attempt - 1] if attempt - 1 < len(backoff) else backoff[-1]`, where the index -1 is
-- that of the last
unfoldable pub countdown : List ℕ → ℕ → Option ℕ
countdown backoff attempt =
    if ltb 0 attempt && ltb (attempt - 1) (length backoff)
    then get_elem? backoff (attempt - 1)
    else last backoff

-- The order goes back to RESERVED before the Celery task is told to retry.
unfoldable pub schedule_retry : RetryPolicy → Uid → ℕ → Action (Unit {0})
unfolding Order.update_status commit countdown
schedule_retry policy order_id attempt = do
  lift (Order.update_status order_id OrderStatus.reserved)
  lift commit
  delay ← or_raise (countdown policy.payment_retry_backoff_list attempt) index_error
  raise (retryable_payment delay)

-- A permanent failure, with its dead letter once the attempts are used up.
unfoldable pub give_up : RetryPolicy → Uid → ℕ → String → St (Unit {0})
unfolding fail_order record_dead_letter commit
give_up policy order_id attempt message s =
    let (_, s₁) = fail_order order_id s in
    if leb policy.payment_max_attempts attempt
    then (let (_, s₂) = record_dead_letter order_id message attempt s₁ in commit s₂)
    else (tt, s₁)

abbrev pub finish_with : RetryPolicy → Uid → ℕ → PaymentOutcome → PaymentResult → Action (Unit {0})
finish_with policy order_id attempt outcome PaymentResult.success = lift (complete_order order_id)
finish_with policy order_id attempt outcome PaymentResult.failed =
    if outcome.retryable && ltb attempt policy.payment_max_attempts
    then schedule_retry policy order_id attempt
    else lift (give_up policy order_id attempt outcome.message)

-- The second transaction, from the charge on.
unfoldable pub finish_processing : RetryPolicy → Uid → Attempt → Action (Unit {0})
unfolding charge schedule_retry give_up complete_order
finish_processing policy order_id (attempt, payment_token) =
    let outcome = charge payment_token in finish_with policy order_id attempt outcome outcome.result

abbrev pub finish_if_started : RetryPolicy → Uid → Option Attempt → Action (Unit {0})
finish_if_started policy order_id none = pure tt
finish_if_started policy order_id (some attempt) = finish_processing policy order_id attempt

-- `except RetryablePaymentError: raise`, `except Exception: rollback`, `finally: db.close()`; the
-- end of a session undoes what is not committed.
abbrev pub closing : {A : Type 0} → Result A × Session → Result A × Session
closing (r, s) = (r, rollback s)

unfoldable pub process_order : RetryPolicy → Uid → Action (Unit {0})
unfolding start_processing finish_processing rollback
process_order policy order_id s =
    let (started, s₁) = start_processing order_id s in
    closing (finish_if_started policy order_id started s₁)
