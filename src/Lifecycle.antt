-- ===== src/Lifecycle.antt =====
-- The service as a whole: the transactions of src/services, src/bootstrap.py and src/workers that
-- change the database, in any order. The worker's two transactions on an order are two steps, so
-- anything may run between.
pub mod Drain
pub mod Replay
pub mod Claimed
pub mod Resent
pub mod Settles
pub mod Statuses
pub mod Apart
use inventory_reservation_or.Prelude.{
  ℕ, ◌+◌, ◌≡◌, refl, String, Bool, true, false, Option, none, some, List, [], ◌∷◌, arith, leb, ltb,
  ◌&&◌, if◌then◌else◌, Bool-cases, inl, inr,
}
use inventory_reservation_or.Prelude.Int.{ℤ, pos}
use inventory_reservation_or.Models.{
  Uid, User, Order, OrderStatus, is_reserved, OrderCreateRequest, OrderResponse,
  InventoryAdjustmentRequest, PaymentResult,
}
use inventory_reservation_or.Session.{
  Session, Result, Error, ok, err, commit, rollback, or_raise, raise, ◌>>=◌, index_error,
  retryable_payment,
}
use inventory_reservation_or.Session.Ensures.{Ensures}
use inventory_reservation_or.Table.{find}
use inventory_reservation_or.Repositories.Order
use inventory_reservation_or.Repositories.Logs.{record_dead_letter}
use inventory_reservation_or.Services.Payment.{PaymentOutcome, charge}
use inventory_reservation_or.Services.Orders.Create.{create_order}
use inventory_reservation_or.Services.Orders.Cancel.{cancel_order}
use inventory_reservation_or.Services.Adjustments.{create_adjustment}
use inventory_reservation_or.Services.LowStock.{set_threshold}
use inventory_reservation_or.Workers.Processor.{
  RetryPolicy, Attempt, start_on, start_processing, complete_order, fail_order, countdown,
  schedule_retry, give_up, finish_with, finish_processing,
}
use inventory_reservation_or.Workers.Cleanup.{expire_batch}
use inventory_reservation_or.Security.{Crypto}
use inventory_reservation_or.Services.Auth.{RegisterRequest, register, ensure_default_admin}
use inventory_reservation_or.Services.Catalog.{
  ProductCreateRequest, create_product, WarehouseCreateRequest, create_warehouse,
}
use inventory_reservation_or.Workers.Relay.{Task, relay_once}
use inventory_reservation_or.Lifecycle.Apart.{
  create_product-IsApart, create_warehouse-IsApart, register-IsApart, ensure_default_admin-IsApart,
  undone-IsValid, relay_once-IsValid,
}
use inventory_reservation_or.Stock.{Consistent}
use inventory_reservation_or.Stock.Books.Loops.{release_active-Ended, consume_active-Ended}
use inventory_reservation_or.Stock.Books.Valid.{IsValid, commit-IsValid, rollback-IsValid}
use inventory_reservation_or.Stock.Books.Settle.{settled, Settled, released, consumed}
use inventory_reservation_or.Stock.Books.Cancel.{CancelEffect, cancel_order_effect}
use inventory_reservation_or.Stock.Books.Process
use inventory_reservation_or.Stock.Books.Place.{CreateEffect, create_order_atomic}
use inventory_reservation_or.Stock.Books.Expire.{expire_batch-IsValid}
use inventory_reservation_or.Stock.Books.Adjust.{create_adjustment_effect}
use inventory_reservation_or.Stock.Books.Threshold.{set_threshold_effect}

-- One transaction. A session that ends undoes what is not committed.
pub data Step : Session → Session → Type 0 where
  create :
      (request_hash : OrderCreateRequest → String) (timeout : ℕ) (payload : OrderCreateRequest)
      (user : User) (key : Option String) (s : Session)
      → Step s (create_order request_hash timeout payload user key s).1
  cancel : (order_id : Uid) (user : User) (s : Session) → Step s (cancel_order order_id user s).1
  start : (order_id : Uid) (s : Session) → Step s (start_processing order_id s).1
  finish :
      (policy : RetryPolicy) (order_id : Uid) (attempt : Attempt) (s : Session)
      → Step s (rollback (finish_processing policy order_id attempt s).1)
  expire : (s : Session) → Step s (expire_batch s).1
  adjust :
      (payload : InventoryAdjustmentRequest) (s : Session)
      → Step s (rollback (create_adjustment payload s).1)
  threshold :
      (product_id warehouse_id : Uid) (level : ℤ) (s : Session)
      → Step s (rollback (set_threshold product_id warehouse_id level s).1)
  relay : (delay : Task → Option Error) (s : Session) → Step s (rollback (relay_once delay s).2)
  add_product :
      (payload : ProductCreateRequest) (s : Session)
      → Step s (rollback (create_product payload s).1)
  add_warehouse :
      (payload : WarehouseCreateRequest) (s : Session)
      → Step s (rollback (create_warehouse payload s).1)
  add_user :
      (crypto : Crypto) (payload : RegisterRequest) (s : Session)
      → Step s (rollback (register crypto payload s).1)
  add_default_admin :
      (crypto : Crypto) (email password : String) (s : Session)
      → Step s (rollback (ensure_default_admin crypto email password s).1)

pub data Reach (s : Session) : Session → Type 0 where
  here : Reach s s
  next : {t u : Session} → Reach s t → Step t u → Reach s u

-- A database with no stock, no reservations and no audit entries yet.
pub record IsInitial (s : Session) : Type 0 where
  pub idle : s.tables ≡ s.committed
  pub no_inventory : s.tables.inventory ≡ []
  pub no_reservations : s.tables.reservations ≡ []
  pub no_audit_logs : s.tables.audit_logs ≡ []

empty-IsConsistent : Consistent [] [] [] []
unfolding find
empty-IsConsistent = record {
  unique_rows = tt;
  unique_ids = tt;
  balance = λ p w. refl;
  explained = λ p w. refl;
}

IsInitial-IsValid : (s : Session) → IsInitial s → IsValid s
IsInitial-IsValid s i = record {
  idle = i.idle;
  consistent = rw (i.no_inventory, i.no_reservations, i.no_audit_logs) empty-IsConsistent;
}

create-IsValid :
    (s : Session) (out : Result OrderResponse × Session)
    → IsValid s
    → CreateEffect s out
    → IsValid out.1
create-IsValid s (ok response, s') v h = h
create-IsValid s (err e, s') v h = record {
  idle = rw (h.0, h.1) v.idle;
  consistent = rw h.0 v.consistent;
}

cancel-IsValid :
    (order_id : Uid) (s : Session) (out : Result Order × Session)
    → IsValid s
    → CancelEffect order_id s out.0 out.1
    → IsValid out.1
cancel-IsValid order_id s (ok order, s') v h = h.valid
cancel-IsValid order_id s (err e, s') v h = record {
  idle = rw (h.0, h.1) v.idle;
  consistent = rw h.0 v.consistent;
}

start_on-IsValid :
    (order_id : Uid) (found : Option Order) (s : Session)
    → IsValid s
    → IsValid (start_on order_id found s).1
unfolding commit Order.update_attempts Order.update_status
start_on-IsValid order_id none s v = record { idle = refl; consistent = v.consistent }
start_on-IsValid order_id (some order) s v = elim (Bool-cases (is_reserved order.status)) [
  | inl r ↦ rw r (record { idle = refl; consistent = v.consistent })
  | inr r ↦ rw r (record { idle = refl; consistent = v.consistent })
]

start-IsValid : (order_id : Uid) (s : Session) → IsValid s → IsValid (start_processing order_id s).1
unfolding start_processing
start-IsValid order_id s v = start_on-IsValid order_id _ s v

-- A transaction that raises with nothing committed is undone.
ended-IsValid :
    {A : Type 0} (s : Session) (out : Result A × Session)
    → IsValid s
    → Ensures (λ _. IsValid) (λ s'. s'.committed ≡ s.committed) out
    → IsValid (rollback out.1)
ended-IsValid s (ok a, s') v h = rollback-IsValid s' s' h refl
ended-IsValid s (err e, s') v h = rollback-IsValid s s' v h

raised-IsValid :
    (delay : Option ℕ) (s : Session)
    → IsValid s
    → IsValid ((or_raise delay index_error >>= λ d. raise {A = Unit {0}} (retryable_payment d)) s).1
raised-IsValid none s v = v
raised-IsValid (some d) s v = v

-- The second transaction on an order, whatever has become of the order since the first.
module _ (policy : RetryPolicy) (order_id : Uid) (s : Session) (v : IsValid s) where
  complete-IsValid : IsValid (complete_order order_id s).1
  unfolding complete_order Order.update_status
  complete-IsValid =
      commit-IsValid (Order.update_status order_id OrderStatus.completed (consumed order_id s)).1
        (consume_active-Ended order_id s v.consistent).consistent

  fail-IsValid : IsValid (fail_order order_id s).1
  unfolding fail_order Order.update_status
  fail-IsValid =
      commit-IsValid (Order.update_status order_id OrderStatus.failed (released order_id s)).1
        (release_active-Ended order_id s v.consistent).consistent

  give_up-IsValid :
      (attempt : ℕ) (message : String) → IsValid (give_up policy order_id attempt message s).1
  unfolding give_up record_dead_letter commit
  give_up-IsValid attempt message = elim (Bool-cases (leb policy.payment_max_attempts attempt)) [
    | inl last ↦ rw last (record { idle = refl; consistent = fail-IsValid.consistent })
    | inr more ↦ rw more fail-IsValid
  ]

  retry-IsValid : (attempt : ℕ) → IsValid (schedule_retry policy order_id attempt s).1
  unfolding schedule_retry commit Order.update_status
  retry-IsValid attempt =
      raised-IsValid (countdown policy.payment_retry_backoff_list attempt)
        (commit (Order.update_status order_id OrderStatus.reserved s).1).1
        (record { idle = refl; consistent = v.consistent })

  finish_with-IsValid :
      (attempt : ℕ) (outcome : PaymentOutcome) (result : PaymentResult)
      → IsValid (finish_with policy order_id attempt outcome result s).1
  finish_with-IsValid attempt outcome PaymentResult.success = complete-IsValid
  finish_with-IsValid attempt outcome PaymentResult.failed =
      elim (Bool-cases (outcome.retryable && ltb attempt policy.payment_max_attempts)) [
        | inl again ↦ rw again (retry-IsValid attempt)
        | inr last ↦ rw last (give_up-IsValid attempt outcome.message)
      ]

  finish-IsValid :
      (attempt : Attempt) → IsValid (rollback (finish_processing policy order_id attempt s).1)
  unfolding finish_processing
  finish-IsValid (attempt, token) =
      let outcome = charge token in
      let s' = (finish_with policy order_id attempt outcome outcome.result s).1 in
      rollback-IsValid s' s' (finish_with-IsValid attempt outcome outcome.result) refl

-- Every transaction leaves the books in agreement and nothing uncommitted.
pub Step-IsValid : {s t : Session} → Step s t → IsValid s → IsValid t
Step-IsValid (create request_hash timeout payload user key s) v =
    create-IsValid s _ v (create_order_atomic request_hash timeout payload user key s v)
Step-IsValid (cancel order_id user s) v =
    cancel-IsValid order_id s _ v (cancel_order_effect order_id user s v)
Step-IsValid (start order_id s) v = start-IsValid order_id s v
Step-IsValid (finish policy order_id attempt s) v = finish-IsValid policy order_id s v attempt
Step-IsValid (expire s) v = expire_batch-IsValid s v
Step-IsValid (adjust payload s) v = ended-IsValid s _ v (create_adjustment_effect payload s v)
Step-IsValid (threshold product_id warehouse_id level s) v =
    ended-IsValid s _ v (set_threshold_effect product_id warehouse_id level s v)
Step-IsValid (relay delay s) v = relay_once-IsValid delay s v
Step-IsValid (add_product payload s) v = undone-IsValid s _ v (create_product-IsApart payload s)
Step-IsValid (add_warehouse payload s) v = undone-IsValid s _ v (create_warehouse-IsApart payload s)
Step-IsValid (add_user crypto payload s) v =
    undone-IsValid s _ v (register-IsApart crypto payload s)
Step-IsValid (add_default_admin crypto email password s) v =
    undone-IsValid s _ v (ensure_default_admin-IsApart crypto email password s v)

-- From a database with no stock, no reservations and no audit entries, whatever transactions of
-- these run and in whatever order - the creation and the cancellation of orders, the two
-- transactions of a worker, rounds of the clean-up and of the outbox relay, adjustments, settings
-- of thresholds, and the creation of products, warehouses, users and the default admin - between
-- two of them nothing is uncommitted and the books agree: one row for each product and warehouse,
-- one reservation for each id, reserved quantities that are what the active reservations hold, and
-- available quantities that are the sum of the audit entries other than the completions of orders.
pub Reach-IsValid : {s t : Session} → IsInitial s → Reach s t → IsValid t
Reach-IsValid i here = IsInitial-IsValid _ i
Reach-IsValid i (next r step) = Step-IsValid step (Reach-IsValid i r)
