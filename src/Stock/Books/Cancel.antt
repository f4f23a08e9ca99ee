-- ===== src/Stock/Books/Cancel.antt =====
-- `cancel_order` of src/services/order_service.py.
use inventory_reservation_or.Prelude.{
  ◌≡◌, refl, sym, Option, none, some, arith, if◌then◌else◌, Bool-cases, inl, inr,
}
use inventory_reservation_or.Models.{Uid, User, Order, OrderStatus, is_cancellable}
use inventory_reservation_or.Session.{
  Session, Result, ok, err, rollback, rolling_back, order_not_found, forbidden,
  order_cannot_be_cancelled,
}
use inventory_reservation_or.Repositories.Order
use inventory_reservation_or.Services.Orders.Cancel.{is_forbidden, cancel_order, cancel_order_impl}
use inventory_reservation_or.Stock.Books.Loops.{release_active-Ended}
use inventory_reservation_or.Stock.Books.Valid.{IsValid}
use inventory_reservation_or.Stock.Books.Settle.{settled, Settled, settled-Settled, released}

-- What a cancellation answers, by the order that is found and who asks.
abbrev pub cancel_answer : Uid → User → Option Order → Result Order
cancel_answer order_id user none = err (order_not_found order_id)
cancel_answer order_id user (some order) =
    if is_forbidden order user
    then err forbidden
    else if is_cancellable order.status
    then ok (record order { status = OrderStatus.cancelled })
    else err (order_cannot_be_cancelled order_id order.status)

-- What a cancellation does to the session: the reservations released, the order marked and all
-- committed, or everything undone.
abbrev pub after_answer : Uid → Session → Result Order → Session
after_answer order_id s (ok order) = settled order_id OrderStatus.cancelled (released order_id s)
after_answer order_id s (err e) = rollback s

pub cancel_order_state :
    (order_id : Uid) (user : User) (s : Session)
    → let answer = cancel_answer order_id user (Order.get_by_id order_id s) in
      cancel_order order_id user s ≡ (answer, after_answer order_id s answer)
unfolding cancel_order cancel_order_impl rolling_back
cancel_order_state order_id user s = ground arith

abbrev pub CancelEffect : Uid → Session → Result Order → Session → Type 0
CancelEffect order_id s (ok order) s' = Settled order_id order s'
CancelEffect order_id s (err e) s' = (s'.tables ≡ s.tables) × (s'.committed ≡ s.committed)

module _ (order_id : Uid) (user : User) (s : Session) (v : IsValid s) where
  effect_at :
      (found : Option Order)
      → Order.get_by_id order_id s ≡ found
      → let answer = cancel_answer order_id user found in
        CancelEffect order_id s answer (after_answer order_id s answer)
  unfolding rollback
  effect_at none e = (sym v.idle, refl)
  effect_at (some order) e = elim (Bool-cases (is_forbidden order user)) [
    | inl f ↦ rw f (sym v.idle, refl)
    | inr f ↦ elim (Bool-cases (is_cancellable order.status)) [
      | inl c ↦
          rw (f, c)
            (settled-Settled order_id OrderStatus.cancelled order s _ e
              (release_active-Ended order_id s v.consistent))
      | inr c ↦ rw (f, c) (sym v.idle, refl)
    ]
  ]

  -- From a session with agreeing books and nothing uncommitted, a cancellation that answers with
  -- an order has that order stored, has none of its reservations active, and leaves the books in
  -- agreement with nothing uncommitted; one that raises leaves all tables, and what is committed,
  -- as they were.
  pub cancel_order_effect :
      let (answer, s') = cancel_order order_id user s in CancelEffect order_id s answer s'
  cancel_order_effect = rw (cancel_order_state order_id user s) (effect_at _ refl)
