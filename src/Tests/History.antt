-- ===== src/Tests/History.antt =====
-- The order of the small shop of Tests.Shop over a history of its service.
use inventory_reservation_or.Prelude.{◌≤◌, ◌≡◌, refl, true, some, [], ◌∷◌, arith}
use inventory_reservation_or.Models.{OrderStatus}
use inventory_reservation_or.Session.{rollback, rolling_back}
use inventory_reservation_or.Table.{find, select, update_where, rowcount}
use inventory_reservation_or.Repositories.Inventory
use inventory_reservation_or.Repositories.Reservation.{mark_released}
use inventory_reservation_or.Repositories.Logs.{record_audit}
use inventory_reservation_or.Services.Inventory.{release_reservation, check_low_stock_transition}
use inventory_reservation_or.Repositories.Order
use inventory_reservation_or.Services.Orders.Cancel.{release_all, cancel_order_impl, cancel_order}
use inventory_reservation_or.Workers.Processor.{RetryPolicy, start_processing, finish_processing}
use inventory_reservation_or.Lifecycle.{cancel}
use inventory_reservation_or.Lifecycle.Statuses.{Moves, status_at}
use inventory_reservation_or.Lifecycle.Statuses.History.{
  World, quiet, begins, ends, begun, ended, History, nothing, followed,
}
use inventory_reservation_or.Lifecycle.Statuses.Final.{resting, History-terminal, History-Moves}
use inventory_reservation_or.Tests.Shop.{alice, shop, shop-IsValid}

abbrev two_tries : RetryPolicy
two_tries = record { payment_max_attempts = 2; payment_retry_backoff_list = 5 ∷ [] }

-- A worker is between its two transactions on the order.
abbrev working : World
working = record {
  session = (start_processing 7 shop).1;
  in_flight = begun 7 (start_processing 7 shop).0 (λ id. 0);
}

abbrev worked : World
worked = record {
  session = rollback (finish_processing two_tries 7 (1, "tok") working.session).1;
  in_flight = ended 7 working.in_flight;
}

one_working : 1 ≤ working.in_flight 7
unfolding start_processing Order.get_by_id find
one_working = omega arith

working-History : History (resting shop) working
working-History = followed nothing (begins 7 shop (λ id. 0))

History-Moves_example : Moves true (status_at 7 working.session) (status_at 7 worked.session)
History-Moves_example =
    History-Moves shop 7 shop-IsValid working-History
      (ends two_tries 7 (1, "tok") working.session working.in_flight one_working)

-- The order was cancelled, and a worker takes it up after that.
abbrev gone : World
gone = record { session = (cancel_order 7 alice shop).1; in_flight = λ id. 0 }

gone-History : History (resting shop) gone
gone-History = followed nothing (quiet (λ id. 0) (cancel 7 alice shop) refl)

abbrev taken_up : World
taken_up = record {
  session = (start_processing 7 gone.session).1;
  in_flight = begun 7 (start_processing 7 gone.session).0 gone.in_flight;
}

gone_status : status_at 7 gone.session ≡ some OrderStatus.cancelled
unfolding cancel_order rolling_back cancel_order_impl release_all release_reservation mark_released
    record_audit check_low_stock_transition Inventory.release find select update_where rowcount
gone_status = refl

History-terminal_example : status_at 7 taken_up.session ≡ some OrderStatus.cancelled
History-terminal_example =
    History-terminal shop 7 OrderStatus.cancelled shop-IsValid gone-History
      (followed nothing (begins 7 gone.session gone.in_flight)) gone_status refl
