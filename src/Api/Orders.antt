-- ===== src/Api/Orders.antt =====
-- src/api/orders.py. FastAPI resolves the dependencies, which know the user and the role, before
-- it reports what is wrong with the body or the query.
use inventory_reservation_or.Prelude.{
  ℕ, ◌+◌, ◌-◌, ◌/◌, String, not, Option, List, [], ◌∷◌, ◌==◌, if◌then◌else◌,
}
use inventory_reservation_or.Models.{
  Uid, Time, UserRole, OrderStatus, Order, OrderItem, OrderCreateRequest, OrderResponse,
}
use inventory_reservation_or.Session.{
  Session, Action, gets, or_raise, raise_if, ◌>>=◌, ◌>>◌, Error, invalid_request,
}
use inventory_reservation_or.Table.{select}
use inventory_reservation_or.Security.{Crypto}
use inventory_reservation_or.Services.Orders.Create
use inventory_reservation_or.Services.Orders.Create.{serialize_order}
use inventory_reservation_or.Services.Orders.Cancel
use inventory_reservation_or.Services.Orders.Cancel.{get_order_or_404}
use inventory_reservation_or.Api.Deps.{require_roles}
use inventory_reservation_or.Api.Requests.{OrderBody, parse_order, is_page}

-- `handle_validation_error` of src/middleware/error_handler.py
abbrev pub refused : Error
refused = invalid_request "Request validation failed"

abbrev pub both : List UserRole
both = UserRole.admin ∷ UserRole.client ∷ []

-- The relationship `Order.items`, and `OrderResponse.model_validate`
unfoldable pub items_of : Uid → Session → List OrderItem
items_of order_id s = select (λ i. i.order_id == order_id) s.tables.order_items

abbrev pub order_response : Order → Session → OrderResponse
unfolding items_of
order_response order s = serialize_order order (items_of order.id s)

abbrev pub order_responses : List Order → Session → List OrderResponse
unfolding items_of
order_responses [] s = []
order_responses (order ∷ orders) s = order_response order s ∷ order_responses orders s

-- `PaginationMeta` and `OrderListResponse`
pub record OrderListResponse : Type 0 where
  pub orders : List OrderResponse
  pub page : ℕ
  pub limit : ℕ
  pub total : ℕ
  pub total_pages : ℕ

-- math.ceil(total / limit) if total else 0
unfoldable pub total_pages : ℕ → ℕ → ℕ
total_pages total limit = if total == 0 then 0 else (total + limit - 1) / limit

-- The query parameters of a list of orders
pub record OrderQuery : Type 0 where
  pub status : Option OrderStatus
  pub created_after : Option Time
  pub created_before : Option Time
  pub page : ℕ
  pub limit : ℕ

abbrev pub list_response : OrderQuery → List Order × ℕ → Session → OrderListResponse
unfolding items_of total_pages
list_response query (orders, total) s = record {
  orders = order_responses orders s;
  page = query.page;
  limit = query.limit;
  total = total;
  total_pages = total_pages total query.limit;
}

module _ (crypto : Crypto) where
  unfoldable pub create_order :
      (OrderCreateRequest → String)
      → ℕ
      → OrderBody
      → Option String
      → Option String
      → Action OrderResponse
  unfolding require_roles parse_order Create.create_order
  create_order request_hash timeout body credentials idempotency_key = do
    current_user ← require_roles crypto (UserRole.client ∷ []) credentials
    payload ← or_raise (parse_order body) refused
    Create.create_order request_hash timeout payload current_user idempotency_key

  unfoldable pub get_order : Uid → Option String → Action OrderResponse
  unfolding require_roles get_order_or_404 items_of
  get_order order_id credentials = do
    current_user ← require_roles crypto both credentials
    order ← get_order_or_404 order_id current_user
    gets (order_response order)

  unfoldable pub list_orders : OrderQuery → Option String → Action OrderListResponse
  unfolding require_roles is_page Cancel.list_orders items_of total_pages
  list_orders query credentials = do
    current_user ← require_roles crypto both credentials
    raise_if (not (is_page query.page query.limit)) refused
    found ← gets (
        Cancel.list_orders current_user query.status query.created_after query.created_before
          query.page query.limit)
    gets (list_response query found)

  unfoldable pub cancel_order : Uid → Option String → Action OrderResponse
  unfolding require_roles Cancel.cancel_order items_of
  cancel_order order_id credentials = do
    current_user ← require_roles crypto both credentials
    order ← Cancel.cancel_order order_id current_user
    gets (order_response order)
