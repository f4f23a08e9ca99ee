-- ===== src/Services/Orders/Cancel.antt =====
-- src/services/order_service.py: retrieval, listing and cancellation.
use inventory_reservation_or.Prelude.{
  ℕ, Bool, true, false, not, ◌&&◌, Option, none, some, List, [], ◌∷◌, ◌==◌, if◌then◌else◌,
}
use inventory_reservation_or.Models.{
  Uid, Time, UserRole, OrderStatus, is_cancellable, User, Order, InventoryReservation,
}
use inventory_reservation_or.Session.{
  Session, St, Action, pure, gets, lift, or_raise, raise_if, ◌>>=◌, ◌>>◌, commit, rolling_back,
  order_not_found, forbidden, order_cannot_be_cancelled,
}
use inventory_reservation_or.Repositories.Order
use inventory_reservation_or.Repositories.Order.{OrderFilter}
use inventory_reservation_or.Repositories.Reservation.{list_active_for_order}
use inventory_reservation_or.Services.Inventory.{release_reservation}

abbrev pub is_client : UserRole → Bool
is_client UserRole.client = true
is_client UserRole.admin = false

-- `current_user.role == CLIENT and order.created_by_user_id != current_user.id`
abbrev pub is_forbidden : Order → User → Bool
is_forbidden order current_user =
    is_client current_user.role && not (order.created_by_user_id == current_user.id)

unfoldable pub get_order_or_404 : Uid → User → Action Order
unfolding Order.get_by_id
get_order_or_404 order_id current_user = do
  order ← or_raise (← gets (Order.get_by_id order_id)) (order_not_found order_id)
  raise_if (is_forbidden order current_user) forbidden
  pure order

abbrev pub user_id_filter : User → Option Uid
user_id_filter current_user = if is_client current_user.role then some current_user.id else none

unfoldable pub list_orders :
    User → Option OrderStatus → Option Time → Option Time → ℕ → ℕ → Session → List Order × ℕ
unfolding Order.list_orders
list_orders current_user status created_after created_before page limit =
    Order.list_orders
      (record {
        status = status;
        created_after = created_after;
        created_before = created_before;
        user_id_filter = user_id_filter current_user;
      })
      page limit

-- The loop over the order's active reservations.
unfoldable pub release_all : Uid → List InventoryReservation → St (Unit {0})
release_all order_id [] s = (tt, s)
release_all order_id (r ∷ rows) s =
    let (_, s') = release_reservation r order_id s in release_all order_id rows s'

unfoldable pub cancel_order_impl : Uid → User → Action Order
unfolding Order.get_by_id list_active_for_order Order.update_status commit
cancel_order_impl order_id current_user = do
  order ← or_raise (← gets (Order.get_by_id order_id)) (order_not_found order_id)
  raise_if (is_forbidden order current_user) forbidden
  raise_if (not (is_cancellable order.status)) (order_cannot_be_cancelled order_id order.status)
  active_reservations ← gets (list_active_for_order order_id)
  lift (release_all order_id active_reservations)
  lift (Order.update_status order_id OrderStatus.cancelled)
  lift commit
  pure (record order { status = OrderStatus.cancelled })

unfoldable pub cancel_order : Uid → User → Action Order
cancel_order order_id current_user s = rolling_back (cancel_order_impl order_id current_user s)
