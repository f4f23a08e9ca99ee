-- ===== src/Services/Orders/Bill.antt =====
-- What `create_order` of src/services/order_service.py charges for.
pub mod Grows
pub mod Prices
pub mod Placed
use inventory_reservation_or.Prelude.{
  ℕ, ◌+◌, ◌*◌, ◌≡◌, refl, ap, ◌∙◌, sym, Bool, true, false, not, Option, none, some, List, [], ◌∷◌,
  ◌++◌, map, ◌==◌, ==_refl, arith, if◌then◌else◌, Bool-cases, Option-cases, inl, inr, String,
}
use mathlib.Core.List.{append_assoc, append-nil, map-append}
use inventory_reservation_or.Models.{
  Uid, Time, OrderStatus, Product, User, OrderItemRequest, OrderCreateRequest, OrderItemResponse,
  OrderResponse, Order, OrderItem, InventoryReservation, Inventory,
}
use inventory_reservation_or.Session.{
  Session, Action, Result, ok, err, ◌>>=◌, gets, lift, or_raise, generate_id, now, key_error, pure,
}
use inventory_reservation_or.Session.Ensures.{
  Ensures, Ensures-weaken, bind-Ensures, or_raise-Ensures,
}
use inventory_reservation_or.Table.{find, select}
use inventory_reservation_or.Repositories.Catalog.{get_many_by_ids}
use inventory_reservation_or.Repositories.Inventory.{find_best_warehouse}
use inventory_reservation_or.Repositories.Reservation.{is_among}
use inventory_reservation_or.Repositories.Order
use inventory_reservation_or.Services.Inventory.{reserve}
use inventory_reservation_or.Services.Idempotency.{IdempotencyClaim}
use inventory_reservation_or.Services.Orders.Create.{
  Progress, to_item_response, reserve_in, reserve_line, reserve_lines, store_order, announce,
  reserve_and_store, place_order, product_ids, create_reservations, no_progress, new_order,
  missing_ids, raise_if_missing,
}

-- The price of a product among those that are read, with nothing for one that is not there.
abbrev pub price_of : Option Product → ℕ
price_of none = 0
price_of (some product) = product.price

abbrev pub price_in : List Product → Uid → ℕ
price_in products id = price_of (find (λ p. p.id == id) products)

-- A reference for the lines of the response and for the total: each line at the price of its
-- product.
abbrev pub quoted : List Product → List OrderItemRequest → List OrderItemResponse
quoted products [] = []
quoted products (line ∷ lines) =
    record {
      product_id = line.product_id;
      quantity = line.quantity;
      unit_price = price_in products line.product_id;
    }
    ∷ quoted products lines

abbrev pub cost : List Product → List OrderItemRequest → ℕ
cost products [] = 0
cost products (line ∷ lines) =
    price_in products line.product_id * line.quantity + cost products lines

-- The response has the lines of the payload at the prices of the products, and their sum.
pub record IsBill (products : List Product) (lines : List OrderItemRequest)
    (response : OrderResponse) : Type 0 where
  pub status : response.status ≡ OrderStatus.reserved
  pub items : response.items ≡ quoted products lines
  pub total : response.total ≡ cost products lines

-- Nothing is said of an outcome.
pub any : {A : Type 0} (out : Result A × Session) → Ensures (λ _ _. Unit) (λ _. Unit) out
any (ok a, s) = tt
any (err e, s) = tt
