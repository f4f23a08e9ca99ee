-- ===== src/Stock/Books/Settle.antt =====
-- The end of an order: its active reservations ended, its status written, all committed.
use inventory_reservation_or.Prelude.{ℕ, ◌≡◌, refl, ap, some, List, [], ◌==◌}
use inventory_reservation_or.Models.{Uid, Order, OrderStatus}
use inventory_reservation_or.Session.{Session, commit}
use inventory_reservation_or.Table.{find, update_where}
use inventory_reservation_or.Table.Laws.{find-update_where, find_sound}
use inventory_reservation_or.Repositories.Order
use inventory_reservation_or.Repositories.Reservation.{list_active_for_order}
use inventory_reservation_or.Services.Orders.Cancel.{release_all}
use inventory_reservation_or.Workers.Processor.{consume_all}
use inventory_reservation_or.Frames.{Rest, rest}
use inventory_reservation_or.Stock.Books.Loops.{Ended}
use inventory_reservation_or.Stock.Books.Valid.{IsValid, commit-IsValid}

abbrev pub released : Uid → Session → Session
released order_id s = (release_all order_id (list_active_for_order order_id s) s).1

abbrev pub consumed : Uid → Session → Session
consumed order_id s = (consume_all order_id (list_active_for_order order_id s) s).1

abbrev pub settled : Uid → OrderStatus → Session → Session
settled order_id status t = (commit (Order.update_status order_id status t).1).1

-- The order is stored as `order` with none of its reservations active, and the books agree.
pub record Settled (order_id : Uid) (order : Order) (s' : Session) : Type 0 where
  pub valid : IsValid s'
  pub stored : Order.get_by_id order_id s' ≡ some order
  pub none_active : list_active_for_order order_id s' ≡ []

-- An UPDATE of the one order, read back.
find_own :
    (order_id : Uid) (f : Order → Order) (rows : List Order) (order : Order)
    → ((o : Order) → (f o).id ≡ o.id)
    → find (λ o. o.id == order_id) rows ≡ some order
    → find (λ o. o.id == order_id) (update_where (λ o. o.id == order_id) f rows) ≡ some (f order)
find_own order_id f rows order same_id e = rw (
  find-update_where (λ o. o.id == order_id) (λ o. o.id == order_id) f
      (λ o. ap (λ (id : Uid). id == order_id) (same_id o)) rows,
  e,
  find_sound (λ o. o.id == order_id) rows e,
)

pub get_by_id-update_attempts :
    (order_id : Uid) (attempts : ℕ) (order : Order) (s : Session)
    → Order.get_by_id order_id s ≡ some order
    → Order.get_by_id order_id (Order.update_attempts order_id attempts s).1
      ≡ some (record order { processing_attempts = attempts })
unfolding Order.get_by_id Order.update_attempts
get_by_id-update_attempts order_id attempts order s e =
    find_own order_id (λ o. record o { processing_attempts = attempts }) s.tables.orders order
      (λ o. refl) e

module _ (order_id : Uid) (status : OrderStatus) (order : Order) (s t : Session) where
  pub get_by_id-update_status :
      rest t ≡ rest s
      → Order.get_by_id order_id s ≡ some order
      → Order.get_by_id order_id (Order.update_status order_id status t).1
        ≡ some (record order { status = status })
  unfolding Order.get_by_id Order.update_status
  get_by_id-update_status same e =
      rw (ap (λ (r : Rest). r.1) same)
        (find_own order_id (λ o. record o { status = status }) s.tables.orders order (λ o. refl) e)

  pub settled-Settled :
      Order.get_by_id order_id s ≡ some order
      → Ended order_id [] s t
      → Settled order_id (record order { status = status }) (settled order_id status t)
  unfolding commit Order.update_status Order.get_by_id list_active_for_order
  settled-Settled e ended = record {
    valid = commit-IsValid (Order.update_status order_id status t).1 ended.consistent;
    stored = get_by_id-update_status ended.same_rest e;
    none_active = ended.none_left;
  }
