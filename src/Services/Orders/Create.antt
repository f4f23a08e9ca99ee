-- ===== src/Services/Orders/Create.antt =====
-- src/services/order_service.py, `create_order`: everything in one transaction. `request_hash` is
-- `compute_request_hash`, and `timeout` is `settings.reservation_timeout_minutes` in the unit of
-- the clock. Decimals are whole cents.
use text.Mathlib.Text.{◌==◌ as str_eq}
use inventory_reservation_or.Prelude.{
  ℕ, ◌+◌, ◌*◌, String, not, Option, none, some, List, [], ◌∷◌, ◌++◌, map, ◌==◌, if◌then◌else◌,
}
use inventory_reservation_or.Models.{
  Uid, Time, OrderStatus, ReservationStatus, Product, User, Payload, OrderItemRequest,
  OrderCreateRequest, OrderItemResponse, OrderResponse, Order, OrderItem, InventoryReservation,
  Inventory,
}
use inventory_reservation_or.Session.{
  St, Action, pure, raise, gets, lift, or_raise, ◌>>=◌, ◌>>◌, commit, rolling_back, generate_id,
  now, key_error, product_not_found, insufficient_inventory,
}
use inventory_reservation_or.Table.{find}
use inventory_reservation_or.Repositories.Inventory.{find_best_warehouse, total_available}
use inventory_reservation_or.Repositories.Reservation
use inventory_reservation_or.Repositories.Reservation.{is_among}
use inventory_reservation_or.Repositories.Order
use inventory_reservation_or.Repositories.Logs.{create_event}
use inventory_reservation_or.Repositories.Catalog.{get_many_by_ids}
use inventory_reservation_or.Services.Inventory.{reserve}
use inventory_reservation_or.Services.Idempotency.{IdempotencyClaim, begin, complete}

-- `_raise_insufficient_inventory`
abbrev pub raise_insufficient_inventory : {A : Type 0} → Uid → ℕ → Action A
raise_insufficient_inventory product_id requested s =
    raise (insufficient_inventory requested (total_available product_id s)) s

-- `_serialize_order`
abbrev pub to_item_response : OrderItem → OrderItemResponse
to_item_response i = record {
  product_id = i.product_id;
  quantity = i.quantity;
  unit_price = i.unit_price;
}

abbrev pub serialize_order : Order → List OrderItem → OrderResponse
serialize_order order items = record {
  id = order.id;
  status = order.status;
  total = order.total;
  items = map to_item_response items;
  created_at = order.created_at;
}

-- The variables of the loop over the line items.
pub record Progress : Type 0 where
  pub order_items : List OrderItem
  pub reservations : List InventoryReservation
  pub total : ℕ

abbrev pub no_progress : Progress
no_progress = record { order_items = []; reservations = []; total = 0 }

abbrev pub product_ids : List OrderItemRequest → List Uid
product_ids [] = []
product_ids (line ∷ lines) = line.product_id ∷ product_ids lines

-- The ids that name none of the products.
abbrev pub missing_ids : List Product → List Uid → List Uid
missing_ids products [] = []
missing_ids products (id ∷ ids) = elim (find (λ p. p.id == id) products) [
  | none ↦ id ∷ missing_ids products ids
  | some _ ↦ missing_ids products ids
]

abbrev pub raise_if_missing : List Uid → Action (Unit {0})
raise_if_missing [] = pure tt
raise_if_missing (id ∷ ids) = raise (product_not_found (id ∷ ids))

-- The reservation of one line, in the warehouse that was found for it.
unfoldable pub reserve_in :
    Uid → Time → OrderItemRequest → Product → Option Inventory → Progress → Action Progress
unfolding generate_id
reserve_in order_id expires_at line product none acc =
    raise_insufficient_inventory line.product_id line.quantity
reserve_in order_id expires_at line product (some best_warehouse) acc = do
  reserved ← lift (reserve line.product_id best_warehouse.warehouse_id line.quantity order_id)
  if not reserved then raise_insufficient_inventory line.product_id line.quantity else pure tt
  item_id ← lift generate_id
  reservation_id ← lift generate_id
  let item : OrderItem = record {
    id = item_id;
    order_id = order_id;
    product_id = line.product_id;
    warehouse_id = best_warehouse.warehouse_id;
    quantity = line.quantity;
    unit_price = product.price;
  }
  let reservation : InventoryReservation = record {
    id = reservation_id;
    order_id = order_id;
    product_id = line.product_id;
    warehouse_id = best_warehouse.warehouse_id;
    quantity = line.quantity;
    status = ReservationStatus.active;
    expires_at = expires_at;
    released_at = none;
  }
  pure (record {
    order_items = acc.order_items ++ item ∷ [];
    reservations = acc.reservations ++ reservation ∷ [];
    total = acc.total + product.price * line.quantity;
  })

unfoldable pub reserve_line :
    List Product → Uid → Time → OrderItemRequest → Progress → Action Progress
unfolding reserve_in
reserve_line products order_id expires_at line acc = do
  product ← or_raise (find (λ p. p.id == line.product_id) products) key_error
  best_warehouse ← gets (find_best_warehouse line.product_id line.quantity)
  reserve_in order_id expires_at line product best_warehouse acc

unfoldable pub reserve_lines :
    List Product → Uid → Time → List OrderItemRequest → Progress → Action Progress
reserve_lines products order_id expires_at [] acc = pure acc
reserve_lines products order_id expires_at (line ∷ lines) acc = do
  acc' ← reserve_line products order_id expires_at line acc
  reserve_lines products order_id expires_at lines acc'

unfoldable pub create_reservations : List InventoryReservation → Action (Unit {0})
create_reservations [] = pure tt
create_reservations (r ∷ rows) = do Reservation.create r; create_reservations rows

abbrev pub complete_claim : Option IdempotencyClaim → Uid → OrderResponse → St (Unit {0})
complete_claim none order_id body s = (tt, s)
complete_claim (some claim) order_id body s = complete claim.entry order_id body s

-- Step 4: the outbox event, the claim of the key, and the commit.
unfoldable pub announce : Order → Progress → Option IdempotencyClaim → Action OrderResponse
unfolding create_event commit
announce order progress claim = do
  lift (create_event "order" order.id "ORDER_RESERVED" (Payload.order_payload order.id))
  let response_body = serialize_order order progress.order_items
  lift (complete_claim claim order.id response_body)
  lift commit
  pure response_body

-- Steps 3 and 4: the order and its reservations first.
unfoldable pub store_order : Order → Progress → Option IdempotencyClaim → Action OrderResponse
unfolding Order.create create_reservations announce
store_order order progress claim = do
  Order.create order progress.order_items
  create_reservations progress.reservations
  announce order progress claim

-- The order as it is first stored.
abbrev pub new_order : Uid → OrderCreateRequest → User → Option String → ℕ → Time → Order
new_order order_id payload current_user idempotency_key total created_at = record {
  id = order_id;
  status = OrderStatus.reserved;
  total = total;
  created_by_user_id = current_user.id;
  payment_token = payload.payment_token;
  processing_attempts = 0;
  idempotency_key = idempotency_key;
  created_at = created_at;
}

-- Step 2, for products that exist, and all that follows.
unfoldable pub reserve_and_store :
    ℕ
    → OrderCreateRequest
    → User
    → Option String
    → Option IdempotencyClaim
    → List Product
    → Action OrderResponse
unfolding generate_id now store_order reserve_lines
reserve_and_store timeout payload current_user idempotency_key claim products = do
  order_id ← lift generate_id
  t ← lift now
  progress ← reserve_lines products order_id (t + timeout) payload.items no_progress
  created_at ← lift now
  store_order (new_order order_id payload current_user idempotency_key progress.total created_at)
      progress claim

-- Steps 1 to 4, with the claim of the idempotency key if there is one.
unfoldable pub place_order :
    ℕ → OrderCreateRequest → User → Option String → Option IdempotencyClaim → Action OrderResponse
unfolding reserve_and_store
place_order timeout payload current_user idempotency_key claim = do
  products ← gets (get_many_by_ids (product_ids payload.items))
  raise_if_missing (missing_ids products (product_ids payload.items))
  reserve_and_store timeout payload current_user idempotency_key claim products

-- `claim.cached_response is not None`
unfoldable pub answer :
    ℕ
    → OrderCreateRequest
    → User
    → String
    → IdempotencyClaim
    → Option OrderResponse
    → Action OrderResponse
answer timeout payload current_user key claim (some response) = do lift commit; pure response
answer timeout payload current_user key claim none =
    place_order timeout payload current_user (some key) (some claim)

-- `_create_order_impl`; an empty key counts as no key in `if idempotency_key`, and is stored.
unfoldable pub create_order_impl :
    (OrderCreateRequest → String)
    → ℕ
    → OrderCreateRequest
    → User
    → Option String
    → Action OrderResponse
unfolding answer
create_order_impl request_hash timeout payload current_user none =
    place_order timeout payload current_user none none
create_order_impl request_hash timeout payload current_user (some key) =
    if str_eq key "" then place_order timeout payload current_user (some key) none else do
      claim ← begin key (request_hash payload)
      answer timeout payload current_user key claim claim.cached_response

unfoldable pub create_order :
    (OrderCreateRequest → String)
    → ℕ
    → OrderCreateRequest
    → User
    → Option String
    → Action OrderResponse
create_order request_hash timeout payload current_user idempotency_key s =
    rolling_back (create_order_impl request_hash timeout payload current_user idempotency_key s)
