-- ===== src/Lifecycle/Settles.antt =====
-- Repeated deliveries of `process_order` of src/workers/order_processor.py to one order, as the
-- queue makes them until the task no longer raises a retry.
use text.Mathlib.Text.{◌==◌ as str_eq}
use inventory_reservation_or.Prelude.{
  ℕ, zero, suc, ◌+◌, ◌≤◌, ◌≡◌, refl, ap, ◌∙◌, String, true, false, ◌||◌, some, [], arith, ltb,
  if◌then◌else◌, Bool-cases, inl, inr,
}
use inventory_reservation_or.Models.{Uid, Order, OrderStatus, is_reserved}
use inventory_reservation_or.Session.{Session}
use inventory_reservation_or.Repositories.Order
use inventory_reservation_or.Repositories.Reservation.{list_active_for_order}
use inventory_reservation_or.Workers.Processor.{RetryPolicy, process_order}
use inventory_reservation_or.Stock.Books.Valid.{IsValid}
use inventory_reservation_or.Stock.Books.Settle.{Settled}
use inventory_reservation_or.Stock.Books.Process.{process_order_duplicate, process_order_effect}

-- So many deliveries, one after the other
abbrev pub deliveries : RetryPolicy → Uid → ℕ → Session → Session
deliveries policy order_id zero s = s
deliveries policy order_id (suc n) s =
    deliveries policy order_id n (process_order policy order_id s).1

-- The status in which the payment token lets an order end
abbrev pub final_status : String → OrderStatus
final_status token =
    if str_eq token "fail" || str_eq token "fail_retryable"
    then OrderStatus.failed
    else OrderStatus.completed

-- The order has ended, with nothing reserved for it.
pub record IsFinished (order_id : Uid) (token : String) (s : Session) : Type 0 where
  pub valid : IsValid s
  pub last : Order
  pub stored : Order.get_by_id order_id s ≡ some last
  pub status : last.status ≡ final_status token
  pub none_active : list_active_for_order order_id s ≡ []

final-not_reserved : (token : String) → is_reserved (final_status token) ≡ false
final-not_reserved token = ground arith

module _ (policy : RetryPolicy) (order_id : Uid) where
  IsFinished-stays :
      (n : ℕ) (token : String) (s : Session)
      → IsFinished order_id token s
      → IsFinished order_id token (deliveries policy order_id n s)
  IsFinished-stays zero token s h = h
  IsFinished-stays (suc n) token s h =
      let over = ap is_reserved h.status ∙ final-not_reserved token in
      let same = process_order_duplicate policy order_id h.last s h.valid h.stored over in
      rw same (IsFinished-stays n token s h)

  Settled-IsFinished :
      (token : String) (last : Order) (s : Session)
      → last.status ≡ final_status token
      → Settled order_id last s
      → IsFinished order_id token s
  Settled-IsFinished token last s e h = record {
    valid = h.valid;
    last = last;
    stored = h.stored;
    status = e;
    none_active = h.none_active;
  }

  -- An order that is stored as RESERVED, on a session with agreeing books and nothing uncommitted,
  -- ends after at least one delivery and as many as its attempts lack to the maximum: it is stored
  -- as FAILED for either failing payment token and as COMPLETED for any other, with none of its
  -- reservations active, the books in agreement and nothing uncommitted.
  pub process_order-IsFinished :
      (n : ℕ) (order : Order) (s : Session)
      → IsValid s
      → Order.get_by_id order_id s ≡ some order
      → is_reserved order.status ≡ true
      → 1 ≤ n
      → policy.payment_max_attempts ≤ order.processing_attempts + n
      → IsFinished order_id order.payment_token (deliveries policy order_id n s)
  process_order-IsFinished zero order s v e r least enough =
      let never : ⊥ = omega arith in elim never [ ]
  process_order-IsFinished (suc n) order s v e r least enough =
      let token = order.payment_token in
      let attempt = order.processing_attempts + 1 in
      let started = record order {
        status = OrderStatus.processing;
        processing_attempts = attempt;
      } in
      let t = (process_order policy order_id s).1 in
      let effect = process_order_effect policy order_id order s v e r in
      elim (Bool-cases (str_eq token "fail")) [
        | inl f ↦
            let k = rw f at effect in
            IsFinished-stays n token t (
              Settled-IsFinished token (record started { status = OrderStatus.failed }) t
                (rw f refl) k.1)
        | inr other ↦ elim (Bool-cases (str_eq token "fail_retryable")) [
          | inl transient ↦ elim (Bool-cases (ltb attempt policy.payment_max_attempts)) [
            | inl again ↦
                let k = rw (other, transient, again) at effect in
                let more : 1 ≤ n = ground arith in
                process_order-IsFinished n (record started { status = OrderStatus.reserved }) t
                  k.1.valid k.1.stored refl more (omega arith)
            | inr last ↦
                let k = rw (other, transient, last) at effect in
                IsFinished-stays n token t (
                  Settled-IsFinished token (record started { status = OrderStatus.failed }) t
                    (rw (other, transient) refl) k.1)
          ]
          | inr good ↦
              let k = rw (other, good) at effect in
              IsFinished-stays n token t (
                Settled-IsFinished token (record started { status = OrderStatus.completed }) t
                  (rw (other, good) refl) k.1)
        ]
      ]
