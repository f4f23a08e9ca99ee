-- ===== src/Lifecycle/Statuses/Sound.antt =====
-- Workers and the orders that they are on, event by event.
use mathlib.Core.Option
use inventory_reservation_or.Prelude.{
  ℕ, ◌-◌, ◌≤◌, ◌≡◌, refl, ap, ◌∙◌, true, false, Option, none, some, ◌==◌, arith, Bool-cases,
  Option-cases, inl, inr,
}
use inventory_reservation_or.Models.{Uid, Order, OrderStatus, is_reserved}
use inventory_reservation_or.Session.{Session, rollback}
use inventory_reservation_or.Repositories.Order
use inventory_reservation_or.Workers.Processor.{
  RetryPolicy, Attempt, start_processing, finish_processing,
}
use inventory_reservation_or.Stock.Books.Valid.{IsValid}
use inventory_reservation_or.Stock.Books.Process.{start_processing-reserved, start_processing-other}
use inventory_reservation_or.Lifecycle.{
  Step, create, cancel, start, finish, expire, adjust, threshold, relay, add_product, add_warehouse,
  add_user, add_default_admin, Step-IsValid,
}
use inventory_reservation_or.Services.Auth.{register, ensure_default_admin}
use inventory_reservation_or.Services.Catalog.{create_product, create_warehouse}
use inventory_reservation_or.Workers.Relay.{relay_once}
use inventory_reservation_or.Lifecycle.Apart.{
  Kept, kept, create_product-IsApart, create_warehouse-IsApart, register-IsApart,
  ensure_default_admin-IsApart, undone-kept, relay_once-kept,
}
use inventory_reservation_or.Lifecycle.Statuses.{
  Moves, stays, placed, started, withdrawn, cancelled, expired, completed, failed, put_back,
  status_at, is_reserved-reserved,
}
use inventory_reservation_or.Lifecycle.Statuses.Create.{create_order-Moves}
use inventory_reservation_or.Lifecycle.Statuses.Workers.{cancel_order-Moves, start_processing-Moves}
use inventory_reservation_or.Lifecycle.Statuses.Ends.{finish_processing-Ends, expire_batch-Moves}
use inventory_reservation_or.Lifecycle.Statuses.Stock.{create_adjustment-Moves, set_threshold-Moves}
use inventory_reservation_or.Lifecycle.Statuses.History.{
  World, is_worker, begun, ended, Event, quiet, begins, ends, Sound,
}

Moves-quiet :
    {a b : Option OrderStatus}
    → Moves false a b
    → a ≡ some OrderStatus.processing
    → b ≡ some OrderStatus.processing
Moves-quiet stays h = h
Moves-quiet placed h = cc
Moves-quiet started h = refl
Moves-quiet withdrawn h = cc
Moves-quiet cancelled h = cc
Moves-quiet expired h = cc
Moves-quiet (completed e) h = cc
Moves-quiet (failed e) h = cc
Moves-quiet (put_back e) h = cc

Moves-any : {a b : Option OrderStatus} → Moves false a b → Moves true a b
Moves-any stays = stays
Moves-any placed = placed
Moves-any started = started
Moves-any withdrawn = withdrawn
Moves-any cancelled = cancelled
Moves-any expired = expired
Moves-any (completed e) = completed refl
Moves-any (failed e) = failed refl
Moves-any (put_back e) = put_back refl

kept-Moves :
    (id : Uid) (s t : Session)
    → kept t.tables ≡ kept s.tables
    → Moves false (status_at id s) (status_at id t)
kept-Moves id s t h =
    let same : t.tables.orders ≡ s.tables.orders = ap (λ (k : Kept). k.3) h in rw same stays

quiet-Moves :
    {s t : Session} (step : Step s t) (id : Uid)
    → is_worker step ≡ false
    → IsValid s
    → Moves false (status_at id s) (status_at id t)
quiet-Moves (create request_hash timeout payload user key s) id q v =
    create_order-Moves request_hash timeout payload user key s id v
quiet-Moves (cancel order_id user s) id q v = cancel_order-Moves order_id user s id v
quiet-Moves (start order_id s) id q v = cc
quiet-Moves (finish policy order_id attempt s) id q v = cc
quiet-Moves (expire s) id q v = expire_batch-Moves id s
quiet-Moves (adjust payload s) id q v = create_adjustment-Moves id s v payload
quiet-Moves (threshold p w level s) id q v = set_threshold-Moves id s v p w level
quiet-Moves (relay delay s) id q v =
    kept-Moves id s (rollback (relay_once delay s).2) (relay_once-kept delay s v)
quiet-Moves (add_product payload s) id q v =
    kept-Moves id s (rollback (create_product payload s).1)
      (undone-kept s _ v (create_product-IsApart payload s))
quiet-Moves (add_warehouse payload s) id q v =
    kept-Moves id s (rollback (create_warehouse payload s).1)
      (undone-kept s _ v (create_warehouse-IsApart payload s))
quiet-Moves (add_user crypto payload s) id q v =
    kept-Moves id s (rollback (register crypto payload s).1)
      (undone-kept s _ v (register-IsApart crypto payload s))
quiet-Moves (add_default_admin crypto email password s) id q v =
    kept-Moves id s (rollback (ensure_default_admin crypto email password s).1)
      (undone-kept s _ v (ensure_default_admin-IsApart crypto email password s v))

-- An order with a status is stored with it.
status_at-stored :
    (id : Uid) (s : Session) (status : OrderStatus)
    → status_at id s ≡ some status
    → (order : Order) × (Order.get_by_id id s ≡ some order) × (order.status ≡ status)
unfolding Order.get_by_id
status_at-stored id s status h = elim (Option-cases (Order.get_by_id id s)) [
  | inl absent ↦ let k : none ≡ some status = rw absent at h in cc
  | inr (order, e) ↦ let k : some order.status ≡ some status = rw e at h in (order, e, cc)
]

pub Event-Moves :
    {w u : World} (id : Uid)
    → Sound w
    → Event w u
    → Moves true (status_at id w.session) (status_at id u.session)
Event-Moves id h (quiet f step q) = Moves-any (quiet-Moves step id q h.valid)
Event-Moves id h (begins order_id s f) = Moves-any (start_processing-Moves order_id s id)
Event-Moves id h (ends policy order_id attempt s f working) =
    let (order, e, p) =
      status_at-stored order_id s OrderStatus.processing (h.busy order_id working) in
    (finish_processing-Ends policy order_id order s id h.valid e p attempt).0

absent_answer :
    (order_id : Uid) (s : Session)
    → Order.get_by_id order_id s ≡ none
    → (start_processing order_id s).0 ≡ none
unfolding start_processing
absent_answer order_id s absent = rw absent refl

-- What the first transaction of a worker hands on, and what it does to the order.
abbrev Begins : Uid → Session → Option Attempt → Session → Type 0
Begins order_id s none t = Unit
Begins order_id s (some attempt) t =
    (status_at order_id s ≡ some OrderStatus.reserved)
    × (status_at order_id t ≡ some OrderStatus.processing)

start_processing-Begins :
    (order_id : Uid) (s : Session)
    → IsValid s
    → Begins order_id s (start_processing order_id s).0 (start_processing order_id s).1
unfolding Order.get_by_id
start_processing-Begins order_id s v = elim (Option-cases (Order.get_by_id order_id s)) [
  | inl absent ↦ rw (absent_answer order_id s absent) tt
  | inr (order, e) ↦ elim (Bool-cases (is_reserved order.status)) [
    | inl r ↦
        let begun = start_processing-reserved order_id order s v e r in
        let status = is_reserved-reserved order.status r in
        rw begun.0 (rw (e, status) refl, ap (Option.map (λ (o : Order). o.status)) begun.1.stored)
    | inr r ↦
        rw
          (ap (λ (out : Option Attempt × Session). out.0)
            (start_processing-other order_id order s v e r))
          tt
  ]
]

module _ (order_id : Uid) (s : Session) (f : Uid → ℕ)
    (h : Sound (record { session = s; in_flight = f })) where
  -- No worker is on an order that is RESERVED.
  reserved-idle : status_at order_id s ≡ some OrderStatus.reserved → f order_id ≡ 0
  reserved-idle r = elim (Bool-cases (f order_id == 0)) [
    | inl none_there ↦ ground arith
    | inr there ↦
        let working : 1 ≤ f order_id = ground arith in let p = h.busy order_id working in cc
  ]

  begun-one :
      (answer : Option Attempt) (t : Session) (id : Uid)
      → Begins order_id s answer t
      → begun order_id answer f id ≤ 1
  begun-one none t id k = h.one id
  begun-one (some attempt) t id k = elim (Bool-cases (order_id == id)) [
    | inl same ↦
        let ids : id ≡ order_id = ground arith in
        let idle = reserved-idle k.0 in rw (same, ids, idle) (omega arith)
    | inr other ↦ rw other (h.one id)
  ]

  begun-busy :
      (answer : Option Attempt) (t : Session) (id : Uid)
      → Begins order_id s answer t
      → Moves false (status_at id s) (status_at id t)
      → 1 ≤ begun order_id answer f id
      → status_at id t ≡ some OrderStatus.processing
  begun-busy none t id k m working = Moves-quiet m (h.busy id working)
  begun-busy (some attempt) t id k m working = elim (Bool-cases (order_id == id)) [
    | inl same ↦ let ids : id ≡ order_id = ground arith in rw ids k.1
    | inr other ↦
        let working' : 1 ≤ f id = rw other at working in Moves-quiet m (h.busy id working')
  ]

ended-busy :
    (policy : RetryPolicy) (order_id : Uid) (attempt : Attempt) (s : Session) (f : Uid → ℕ)
    → Sound (record { session = s; in_flight = f })
    → 1 ≤ f order_id
    → (id : Uid) → 1 ≤ ended order_id f id
    → status_at id (rollback (finish_processing policy order_id attempt s).1)
      ≡ some OrderStatus.processing
ended-busy policy order_id attempt s f h working id still = elim (Bool-cases (order_id == id)) [
  | inl same ↦
      let one = h.one id in
      let left : 1 ≤ f id - 1 = rw same at still in let never : ⊥ = omega arith in elim never [ ]
  | inr other ↦
      let (order, e, p) =
        status_at-stored order_id s OrderStatus.processing (h.busy order_id working) in
      let kept = (finish_processing-Ends policy order_id order s id h.valid e p attempt).1 other in
      let still' : 1 ≤ f id = rw other at still in kept ∙ h.busy id still'
]

pub Event-Sound : {w u : World} → Sound w → Event w u → Sound u
Event-Sound h (quiet f step q) = record {
  valid = Step-IsValid step h.valid;
  one = h.one;
  busy = λ id working. Moves-quiet (quiet-Moves step id q h.valid) (h.busy id working);
}
Event-Sound h (begins order_id s f) =
    let k = start_processing-Begins order_id s h.valid in
    record {
      valid = Step-IsValid (start order_id s) h.valid;
      one = λ id.
          begun-one order_id s f h (start_processing order_id s).0 (start_processing order_id s).1
            id k;
      busy = λ id working.
          begun-busy order_id s f h (start_processing order_id s).0 (start_processing order_id s).1
            id k (start_processing-Moves order_id s id) working;
    }
Event-Sound h (ends policy order_id attempt s f working) = record {
  valid = Step-IsValid (finish policy order_id attempt s) h.valid;
  one = λ id. let one = h.one id in ground arith;
  busy = λ id still. ended-busy policy order_id attempt s f h working id still;
}
