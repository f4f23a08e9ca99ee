-- ===== src/Api/Server.antt =====
-- The routes of src/api as one function from a request to a response: the endpoint runs with a
-- session of its own (`get_db`), and its answer or its exception becomes the response.
use inventory_reservation_or.Prelude.{ℕ, String, Option, List}
use inventory_reservation_or.Prelude.Int.{ℤ}
use inventory_reservation_or.Models.{
  Uid, Product, Warehouse, LowStockAlert, InventoryAdjustmentRequest, OrderCreateRequest,
  OrderResponse,
}
use inventory_reservation_or.Session.{Session, Action, pure, ◌>>=◌}
use inventory_reservation_or.Security.{Crypto}
use inventory_reservation_or.Services.Adjustments.{WarehouseInventoryLine}
use inventory_reservation_or.Services.Catalog.{WarehouseCreateRequest}
use inventory_reservation_or.Services.Auth.{RegisterRequest, LoginRequest, TokenResponse}
use inventory_reservation_or.Api.Errors.{Response, respond}
use inventory_reservation_or.Api.Deps.{get_db}
use inventory_reservation_or.Api.Requests.{OrderBody, ProductBody}
use inventory_reservation_or.Api.Orders.{
  OrderQuery, OrderListResponse, create_order, get_order, list_orders, cancel_order,
}
use inventory_reservation_or.Api.Admin.{
  InventoryAdjustmentResponse, LowStockThresholdResponse, UserResponse, create_adjustment,
  list_low_stock_alerts, set_low_stock_threshold, get_inventory, create_product, get_product,
  create_warehouse, register, login,
}

-- What the endpoints take from the settings and from the libraries.
pub record Config : Type 0 where
  pub crypto : Crypto
  pub validate_email : String → Option String
  pub request_hash : OrderCreateRequest → String
  pub reservation_timeout : ℕ
  pub jwt_expire_minutes : ℕ

-- A request to one of the endpoints with a database session. The text is the bearer token, where
-- the request has one.
pub data Request : Type 0 where
  post_order : OrderBody → (idempotency_key token : Option String) → Request
  get_order_by_id : Uid → Option String → Request
  get_orders : OrderQuery → Option String → Request
  post_cancel : Uid → Option String → Request
  post_adjustment : InventoryAdjustmentRequest → Option String → Request
  get_low_stock : Option Uid → Option String → Request
  put_threshold : (product_id warehouse_id : Uid) → ℤ → Option String → Request
  get_product_inventory : Uid → Option String → Request
  post_product : ProductBody → Option String → Request
  get_product_by_id : Uid → Option String → Request
  post_warehouse : WarehouseCreateRequest → Option String → Request
  post_register : RegisterRequest → Request
  post_login : LoginRequest → Request

pub data Body : Type 0 where
  order_body : OrderResponse → Body
  orders_body : OrderListResponse → Body
  adjustment_body : InventoryAdjustmentResponse → Body
  alerts_body : List LowStockAlert → Body
  threshold_body : LowStockThresholdResponse → Body
  inventory_body : List WarehouseInventoryLine → Body
  product_body : Product → Body
  warehouse_body : Warehouse → Body
  user_body : UserResponse → Body
  token_body : TokenResponse → Body

-- The status of success that the route declares
abbrev pub success_status : Request → ℕ
success_status (post_order _ _ _) = 201
success_status (post_adjustment _ _) = 201
success_status (post_product _ _) = 201
success_status (post_warehouse _ _) = 201
success_status (post_register _) = 201
success_status _ = 200

abbrev pub with_body : {A : Type 0} → (A → Body) → Action A → Action Body
with_body f action = action >>= λ a. pure (f a)

module _ (config : Config) where
  -- The endpoint of a request
  unfoldable pub endpoint : Request → Action Body
  endpoint (post_order body key token) =
      with_body order_body
        (create_order config.crypto config.request_hash config.reservation_timeout body token key)
  endpoint (get_order_by_id id token) = with_body order_body (get_order config.crypto id token)
  endpoint (get_orders query token) = with_body orders_body (list_orders config.crypto query token)
  endpoint (post_cancel id token) = with_body order_body (cancel_order config.crypto id token)
  endpoint (post_adjustment body token) =
      with_body adjustment_body (create_adjustment config.crypto body token)
  endpoint (get_low_stock warehouse_id token) =
      with_body alerts_body (list_low_stock_alerts config.crypto warehouse_id token)
  endpoint (put_threshold product_id warehouse_id level token) =
      with_body threshold_body
        (set_low_stock_threshold config.crypto product_id warehouse_id level token)
  endpoint (get_product_inventory id token) =
      with_body inventory_body (get_inventory config.crypto id token)
  endpoint (post_product body token) =
      with_body product_body (create_product config.crypto body token)
  endpoint (get_product_by_id id token) =
      with_body product_body (get_product config.crypto id token)
  endpoint (post_warehouse body token) =
      with_body warehouse_body (create_warehouse config.crypto body token)
  endpoint (post_register body) =
      with_body user_body (register config.crypto config.validate_email body)
  endpoint (post_login body) =
      with_body token_body
        (login config.crypto config.validate_email config.jwt_expire_minutes body)

  unfoldable pub serve : Request → Session → Response Body × Session
  unfolding endpoint get_db
  serve request s =
      let (r, s') = get_db (endpoint request) s in (respond (success_status request) r, s')
