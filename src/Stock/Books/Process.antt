-- ===== src/Stock/Books/Process.antt =====
-- `process_order` of src/workers/order_processor.py and its two transactions.
use text.Mathlib.Text.{◌==◌ as str_eq}
use mathlib.Core.Path.{subst}
use inventory_reservation_or.Prelude.{
  if_elim, ℕ, ◌+◌, ◌≡◌, refl, ap, sym, true, false, Option, none, some, if◌then◌else◌, Bool-cases,
  inl, inr, ltb, leb, String,
}
use inventory_reservation_or.Models.{Uid, Order, OrderStatus, is_reserved}
use inventory_reservation_or.Session.{
  Session, Result, ok, err, commit, rollback, raise, or_raise, ◌>>=◌, index_error,
  retryable_payment,
}
use inventory_reservation_or.Repositories.Order
use inventory_reservation_or.Repositories.Reservation.{list_active_for_order}
use inventory_reservation_or.Workers.Processor.{
  RetryPolicy, start_processing, complete_order, fail_order, countdown, schedule_retry, give_up,
  finish_processing, process_order,
}
use inventory_reservation_or.Stock.Books.Loops.{release_active-Ended, consume_active-Ended}
use inventory_reservation_or.Stock.Books.Valid.{IsValid}
use inventory_reservation_or.Stock.Books.Settle.{
  Settled, settled-Settled, released, consumed, get_by_id-update_status, get_by_id-update_attempts,
}

module _ (order_id : Uid) (order : Order) (s : Session) (v : IsValid s)
    (e : Order.get_by_id order_id s ≡ some order) where
  pub complete_order-Settled :
      Settled order_id
        (record order { status = OrderStatus.completed })
        (complete_order order_id s).1
  unfolding complete_order
  complete_order-Settled =
      settled-Settled order_id OrderStatus.completed order s (consumed order_id s) e
        (consume_active-Ended order_id s v.consistent)

  pub fail_order-Settled :
      Settled order_id (record order { status = OrderStatus.failed }) (fail_order order_id s).1
  unfolding fail_order
  fail_order-Settled =
      settled-Settled order_id OrderStatus.failed order s (released order_id s) e
        (release_active-Ended order_id s v.consistent)

  pub give_up-Settled :
      (policy : RetryPolicy) (attempt : ℕ) (message : String)
      → Settled order_id
          (record order { status = OrderStatus.failed })
          (give_up policy order_id attempt message s).1
  unfolding give_up Order.get_by_id list_active_for_order commit
  give_up-Settled policy attempt message =
      elim (Bool-cases (leb policy.payment_max_attempts attempt)) [
        | inl last ↦ rw last (
            let f = fail_order-Settled in
            record {
              valid = record { idle = refl; consistent = f.valid.consistent };
              stored = f.stored;
              none_active = f.none_active;
            })
        | inr more ↦ rw more fail_order-Settled
      ]

-- A session with nothing uncommitted is left as it is by a rollback.
rollback_idle : (s : Session) → s.tables ≡ s.committed → rollback s ≡ s
unfolding rollback
rollback_idle s idle = λ i. record s { tables = sym idle i }

-- The order as it is stored for another attempt, with its reservations as they were.
pub record Rescheduled (order_id : Uid) (order : Order) (s s' : Session) : Type 0 where
  pub valid : IsValid s'
  pub stored : Order.get_by_id order_id s' ≡ some order
  pub same_reservations : s'.tables.reservations ≡ s.tables.reservations
  pub same_inventory : s'.tables.inventory ≡ s.tables.inventory

abbrev pub retry_answer : Option ℕ → Result (Unit {0})
retry_answer none = err index_error
retry_answer (some delay) = err (retryable_payment delay)

module _ (order_id : Uid) (order : Order) (s : Session) (v : IsValid s)
    (e : Order.get_by_id order_id s ≡ some order) where
  abbrev attempt : ℕ
  attempt = order.processing_attempts + 1

  abbrev started : Order
  started = record order { status = OrderStatus.processing; processing_attempts = attempt }

  -- The first transaction on an order that is stored as RESERVED, from a session with agreeing
  -- books and nothing uncommitted, hands on the number of the attempt and the payment token, and
  -- commits the order as PROCESSING with its attempts counted, with the reservations and the
  -- inventory as they were and the books in agreement.
  pub start_processing-reserved :
      is_reserved order.status ≡ true
      → let (started_with, s') = start_processing order_id s in
        (started_with ≡ some (attempt, order.payment_token)) × Rescheduled order_id started s s'
  unfolding start_processing Order.update_status Order.update_attempts Order.get_by_id commit
  start_processing-reserved r =
      rw (e, r)
        (
          refl,
          record {
            valid = record { idle = refl; consistent = v.consistent };
            stored =
                get_by_id-update_status order_id OrderStatus.processing
                  (record order { processing_attempts = attempt })
                  (Order.update_attempts order_id attempt s).1
                  (Order.update_attempts order_id attempt s).1 refl
                  (get_by_id-update_attempts order_id attempt order s e);
            same_reservations = refl;
            same_inventory = refl;
          },
        )

  -- A delivery for an order in any other status: a duplicate, or one that was cancelled.
  pub start_processing-other :
      is_reserved order.status ≡ false → (start_processing order_id s) ≡ (none, s)
  unfolding start_processing commit
  start_processing-other r = rw (e, r) (λ i. (none, record s { committed = v.idle i }))

-- What the second transaction is to do for an order: by its payment token and the attempt.
abbrev pub FinishEffect :
    RetryPolicy → Uid → Order → ℕ → String → Session → Result (Unit {0}) × Session → Type 0
FinishEffect policy order_id order attempt token s (answer, s') =
    if str_eq token "fail"
    then (answer ≡ ok tt) × Settled order_id (record order { status = OrderStatus.failed }) s'
    else if str_eq token "fail_retryable"
    then (if ltb attempt policy.payment_max_attempts
        then (answer ≡ retry_answer (countdown policy.payment_retry_backoff_list attempt))
          × Rescheduled order_id (record order { status = OrderStatus.reserved }) s s'
        else (answer ≡ ok tt) × Settled order_id (record order { status = OrderStatus.failed }) s')
    else (answer ≡ ok tt) × Settled order_id (record order { status = OrderStatus.completed }) s'

module _ (policy : RetryPolicy) (order_id : Uid) (order : Order) (attempt : ℕ) (s : Session)
    (v : IsValid s) (e : Order.get_by_id order_id s ≡ some order) where
  retry_answered :
      (delay : Option ℕ) (s' : Session)
      → (or_raise delay index_error >>= λ d. raise {A = Unit {0}} (retryable_payment d)) s'
        ≡ (retry_answer delay, s')
  retry_answered none s' = refl
  retry_answered (some d) s' = refl

  schedule_retry_effect :
      let (answer, s') = schedule_retry policy order_id attempt s in
      (answer ≡ retry_answer (countdown policy.payment_retry_backoff_list attempt))
      × Rescheduled order_id (record order { status = OrderStatus.reserved }) s s'
  unfolding schedule_retry commit Order.get_by_id Order.update_status
  schedule_retry_effect =
      rw (retry_answered (countdown policy.payment_retry_backoff_list attempt)) (
        refl,
        record {
          valid = record { idle = refl; consistent = v.consistent };
          stored = get_by_id-update_status order_id OrderStatus.reserved order s s refl e;
          same_reservations = refl;
          same_inventory = refl;
        },
      )

  -- The second transaction on a stored order, from a session with agreeing books and nothing
  -- uncommitted, ends as the payment token and the number of the attempt say, whatever the order's
  -- status is: FAILED for a permanent failure or for a transient one at or after the last attempt,
  -- RESERVED with inventory and reservations untouched and a retry raised for an earlier transient
  -- one, and COMPLETED otherwise; FAILED and COMPLETED orders have no active reservation. The
  -- books agree and nothing is uncommitted.
  pub finish_processing_effect :
      (token : String)
      → FinishEffect policy order_id order attempt token s
          (finish_processing policy order_id (attempt, token) s)
  unfolding finish_processing
  finish_processing_effect token = elim (Bool-cases (str_eq token "fail")) [
    | inl permanent ↦ rw permanent (refl, give_up-Settled order_id order s v e policy attempt _)
    | inr other ↦ elim (Bool-cases (str_eq token "fail_retryable")) [
      | inl transient ↦ elim (Bool-cases (ltb attempt policy.payment_max_attempts)) [
        | inl again ↦ rw (other, transient, again) schedule_retry_effect
        | inr last ↦
            rw (other, transient, last)
              (refl, give_up-Settled order_id order s v e policy attempt _)
      ]
      | inr good ↦ rw (other, good) (refl, complete_order-Settled order_id order s v e)
    ]
  ]

idle_after :
    (policy : RetryPolicy) (order_id : Uid) (order : Order) (attempt : ℕ) (token : String)
    (s : Session) (out : Result (Unit {0}) × Session)
    → FinishEffect policy order_id order attempt token s out
    → out.1.tables ≡ out.1.committed
idle_after policy order_id order attempt token s (answer, s') h =
    if_elim (str_eq token "fail") (λ f. f.1.valid.idle)
      (λ g.
        if_elim (str_eq token "fail_retryable")
          (λ r.
            if_elim (ltb attempt policy.payment_max_attempts) (λ f. f.1.valid.idle)
              (λ f. f.1.valid.idle) r)
          (λ f. f.1.valid.idle) g)
      h

module _ (policy : RetryPolicy) (order_id : Uid) (order : Order) (s : Session) (v : IsValid s)
    (e : Order.get_by_id order_id s ≡ some order) where
  -- A delivery for an order that is stored in another status than RESERVED answers normally and
  -- leaves the session as it was, if nothing was uncommitted and the books agreed.
  pub process_order_duplicate :
      is_reserved order.status ≡ false → process_order policy order_id s ≡ (ok tt, s)
  unfolding process_order
  process_order_duplicate r =
      rw (start_processing-other order_id order s v e r)
        (ap (λ (t : Session). (ok tt, t)) (rollback_idle s v.idle))

  -- A delivery for an order that is stored as RESERVED, from a session with agreeing books and
  -- nothing uncommitted, counts the attempt and ends as the payment token says: a permanent
  -- failure, or a transient one at or after the last attempt, leaves the order FAILED and answers
  -- normally; an earlier transient one leaves it RESERVED with the inventory and the reservations
  -- as they were, and raises the retry with the countdown for the attempt, or an index error for
  -- an empty list of delays; any other token leaves it COMPLETED. FAILED and COMPLETED orders have
  -- no active reservation. The books agree and nothing is uncommitted.
  pub process_order_effect :
      is_reserved order.status ≡ true
      → let attempt = order.processing_attempts + 1 in
        let order' = record order {
          status = OrderStatus.processing;
          processing_attempts = attempt;
        } in
        FinishEffect policy order_id order' attempt order.payment_token
          (start_processing order_id s).1
          (process_order policy order_id s)
  unfolding process_order
  process_order_effect r =
      let attempt = order.processing_attempts + 1 in
      let order' : Order = record order {
        status = OrderStatus.processing;
        processing_attempts = attempt;
      } in
      let s₁ = (start_processing order_id s).1 in
      let begun = start_processing-reserved order_id order s v e r in
      let effect =
        finish_processing_effect policy order_id order' attempt s₁ begun.1.valid begun.1.stored
          order.payment_token in
      let (answer, s₂) = finish_processing policy order_id (attempt, order.payment_token) s₁ in
      let idle =
        idle_after policy order_id order' attempt order.payment_token s₁ (answer, s₂) effect in
      rw begun.0 (
        subst (λ t. FinishEffect policy order_id order' attempt order.payment_token s₁ (answer, t))
          (sym (rollback_idle s₂ idle)) effect)
