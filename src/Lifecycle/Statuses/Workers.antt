-- ===== src/Lifecycle/Statuses/Workers.antt =====
-- The statuses of all orders over a cancellation, the worker's transactions and the clean-up.
use mathlib.Core.Option
use mathlib.Core.Path.{subst}
use inventory_reservation_or.Prelude.{
  ℕ, ◌+◌, ◌≡◌, refl, ap, ◌∙◌, false, Option, none, some, List, ◌==◌, arith, if◌then◌else◌,
  Bool-cases, inl, inr,
}
use inventory_reservation_or.Models.{Uid, User, Order, OrderStatus, is_reserved, is_cancellable}
use inventory_reservation_or.Session.{Session, commit, rollback}
use inventory_reservation_or.Table.{update_where}
use inventory_reservation_or.Table.Laws.{find-update_where}
use inventory_reservation_or.Repositories.Order
use inventory_reservation_or.Services.Orders.Cancel.{is_forbidden, cancel_order}
use inventory_reservation_or.Workers.Processor.{start_on, start_processing}
use inventory_reservation_or.Frames.{Rest}
use inventory_reservation_or.Stock.Books.Valid.{IsValid}
use inventory_reservation_or.Stock.Books.Loops.{release_active-Ended}
use inventory_reservation_or.Stock.Books.Settle.{released, get_by_id-update_attempts}
use inventory_reservation_or.Stock.Books.Cancel.{cancel_answer, after_answer, cancel_order_state}
use inventory_reservation_or.Lifecycle.Statuses.{
  Moves, stays, started, row_of, status_in, status_at, written, written-Moves, is_reserved-reserved,
  cancellable-Moves,
}

rollback-Moves :
    (id : Uid) (s : Session)
    → s.tables ≡ s.committed
    → Moves false (status_at id s) (status_at id (rollback s))
unfolding rollback
rollback-Moves id s idle = rw (← idle) stays

-- A cancellation
module _ (order_id : Uid) (user : User) (s : Session) (id : Uid) (v : IsValid s) where
  released-orders : (released order_id s).tables.orders ≡ s.tables.orders
  released-orders = ap (λ (r : Rest). r.1) (release_active-Ended order_id s v.consistent).same_rest

  after-Moves :
      (found : Option Order)
      → Order.get_by_id order_id s ≡ found
      → Moves false
          (status_at id s)
          (status_at id (after_answer order_id s (cancel_answer order_id user found)))
  unfolding Order.get_by_id Order.update_status commit
  after-Moves none e = rollback-Moves id s v.idle
  after-Moves (some order) e = elim (Bool-cases (is_forbidden order user)) [
    | inl f ↦ rw f (rollback-Moves id s v.idle)
    | inr f ↦ elim (Bool-cases (is_cancellable order.status)) [
      | inl c ↦
          rw (f, c, released-orders)
            (written-Moves order_id id OrderStatus.cancelled s.tables.orders order e
              (cancellable-Moves order.status c))
      | inr c ↦ rw (f, c) (rollback-Moves id s v.idle)
    ]
  ]

  pub cancel_order-Moves :
      Moves false (status_at id s) (status_at id (cancel_order order_id user s).1)
  cancel_order-Moves = rw (cancel_order_state order_id user s) (after-Moves _ refl)

-- The first transaction on an order
same_status :
    (order_id : Uid) (attempts : ℕ) (found : Option Order)
    → Option.map
        (λ o. o.status)
        (Option.map
          (λ o. if o.id == order_id then record o { processing_attempts = attempts } else o)
          found)
      ≡ Option.map (λ o. o.status) found
same_status order_id attempts none = refl
same_status order_id attempts (some o) = ground arith

status_in-attempts :
    (order_id id : Uid) (attempts : ℕ) (rows : List Order)
    → status_in id (
        update_where
          (λ o. o.id == order_id)
          (λ o. record o { processing_attempts = attempts })
          rows)
      ≡ status_in id rows
status_in-attempts order_id id attempts rows =
    ap (Option.map (λ (o : Order). o.status)) (
      find-update_where (λ o. o.id == id) (λ o. o.id == order_id)
        (λ o. record o { processing_attempts = attempts }) (λ o. refl) rows)
    ∙ same_status order_id attempts (row_of id rows)

module _ (order_id : Uid) (s : Session) (id : Uid) where
  start_on-Moves :
      (found : Option Order)
      → Order.get_by_id order_id s ≡ found
      → Moves false (status_at id s) (status_at id (start_on order_id found s).1)
  unfolding Order.get_by_id Order.update_attempts Order.update_status commit
  start_on-Moves none e = stays
  start_on-Moves (some order) e = elim (Bool-cases (is_reserved order.status)) [
    | inl r ↦
        let attempts = order.processing_attempts + 1 in
        let attempted = (Order.update_attempts order_id attempts s).1 in
        let order' : Order = record order { processing_attempts = attempts } in
        let status = is_reserved-reserved order.status r in
        rw r (
          subst
            (λ (a : Option OrderStatus).
              Moves false a
                (status_in id (written order_id OrderStatus.processing attempted.tables.orders)))
            (status_in-attempts order_id id attempts s.tables.orders)
            (written-Moves order_id id OrderStatus.processing attempted.tables.orders order'
              (get_by_id-update_attempts order_id attempts order s e) (rw status started)))
    | inr r ↦ rw r stays
  ]

  pub start_processing-Moves :
      Moves false (status_at id s) (status_at id (start_processing order_id s).1)
  unfolding start_processing
  start_processing-Moves = start_on-Moves _ refl
