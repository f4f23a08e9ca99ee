-- ===== src/Lifecycle/Statuses.antt =====
-- The statuses of an order, as the transactions of src/services/order_service.py and src/workers
-- move them.
pub mod Place
pub mod Create
pub mod Workers
pub mod Ends
pub mod Stock
pub mod History
pub mod Sound
pub mod Final
use mathlib.Core.Option
use inventory_reservation_or.Prelude.{
  ℕ, ◌≡◌, refl, sym, ap, ◌∙◌, Bool, true, false, Option, none, some, List, [], ◌∷◌, ◌==◌, arith,
  if◌then◌else◌, Bool-cases, Option-cases, ◌⊎◌, inl, inr,
}
use inventory_reservation_or.Models.{Uid, Order, OrderStatus, is_reserved, is_cancellable}
use inventory_reservation_or.Session.{Session}
use inventory_reservation_or.Table.{find, update_where}
use inventory_reservation_or.Table.Laws.{find-update_where, find_sound}

-- One move of an order's status, where `none` is an order that is not stored. Whether it may be
-- the second transaction of a worker is `by_worker`.
pub data Moves (by_worker : Bool) : Option OrderStatus → Option OrderStatus → Type 0 where
  stays : {a : Option OrderStatus} → Moves by_worker a a
  placed : Moves by_worker none (some OrderStatus.reserved)
  started : Moves by_worker (some OrderStatus.reserved) (some OrderStatus.processing)
  withdrawn : Moves by_worker (some OrderStatus.pending) (some OrderStatus.cancelled)
  cancelled : Moves by_worker (some OrderStatus.reserved) (some OrderStatus.cancelled)
  expired : Moves by_worker (some OrderStatus.reserved) (some OrderStatus.expired)
  completed :
      by_worker ≡ true → Moves by_worker (some OrderStatus.processing) (some OrderStatus.completed)
  failed :
      by_worker ≡ true → Moves by_worker (some OrderStatus.processing) (some OrderStatus.failed)
  put_back :
      by_worker ≡ true → Moves by_worker (some OrderStatus.processing) (some OrderStatus.reserved)

abbrev pub row_of : Uid → List Order → Option Order
row_of id rows = find (λ o. o.id == id) rows

abbrev pub status_in : Uid → List Order → Option OrderStatus
status_in id rows = Option.map (λ o. o.status) (row_of id rows)

abbrev pub status_at : Uid → Session → Option OrderStatus
status_at id s = status_in id s.tables.orders

-- The rows with the status of one order written.
abbrev pub written : Uid → OrderStatus → List Order → List Order
written id status rows = update_where (λ o. o.id == id) (λ o. record o { status = status }) rows

marked :
    (id id' : Uid) (status : OrderStatus) (found : Option Order)
    → ((o : Order) → found ≡ some o → (o.id == id') ≡ true)
    → Option.map
        (λ o. o.status)
        (Option.map (λ o. if o.id == id then record o { status = status } else o) found)
      ≡ (if id == id' then Option.map (λ o. status) found else Option.map (λ o. o.status) found)
marked id id' status none own = ground arith
marked id id' status (some o) own =
    let e = own o refl in
    elim (Bool-cases (id == id')) [
      | inl same ↦ let f : (o.id == id) ≡ true = ground arith in rw (same, f) refl
      | inr other ↦ let f : (o.id == id) ≡ false = ground arith in rw (other, f) refl
    ]

-- The status of each order after it.
pub status_in-written :
    (id id' : Uid) (status : OrderStatus) (rows : List Order)
    → status_in id' (written id status rows)
      ≡ (if id == id' then Option.map (λ o. status) (row_of id' rows) else status_in id' rows)
status_in-written id id' status rows =
    ap (Option.map (λ (o : Order). o.status)) (
      find-update_where (λ o. o.id == id') (λ o. o.id == id) (λ o. record o { status = status })
        (λ o. refl) rows)
    ∙ marked id id' status (row_of id' rows) (λ o found. find_sound (λ x. x.id == id') rows found)

-- A write of a status that its order may move to.
pub written-Moves :
    {b : Bool} (id id' : Uid) (status : OrderStatus) (rows : List Order) (order : Order)
    → row_of id rows ≡ some order
    → Moves b (some order.status) (some status)
    → Moves b (status_in id' rows) (status_in id' (written id status rows))
written-Moves id id' status rows order e m = elim (Bool-cases (id == id')) [
  | inl same ↦
      let ids : id' ≡ id = ground arith in rw (status_in-written id id' status rows, same, ids, e) m
  | inr other ↦ rw (status_in-written id id' status rows, other) stays
]

pub is_reserved-reserved :
    (status : OrderStatus) → is_reserved status ≡ true → status ≡ OrderStatus.reserved
is_reserved-reserved OrderStatus.reserved h = refl
is_reserved-reserved OrderStatus.pending h = cc
is_reserved-reserved OrderStatus.processing h = cc
is_reserved-reserved OrderStatus.completed h = cc
is_reserved-reserved OrderStatus.failed h = cc
is_reserved-reserved OrderStatus.cancelled h = cc
is_reserved-reserved OrderStatus.expired h = cc

pub cancellable-Moves :
    (status : OrderStatus)
    → is_cancellable status ≡ true
    → Moves false (some status) (some OrderStatus.cancelled)
cancellable-Moves OrderStatus.pending h = withdrawn
cancellable-Moves OrderStatus.reserved h = cancelled
cancellable-Moves OrderStatus.processing h = cc
cancellable-Moves OrderStatus.completed h = cc
cancellable-Moves OrderStatus.failed h = cc
cancellable-Moves OrderStatus.cancelled h = cc
cancellable-Moves OrderStatus.expired h = cc
