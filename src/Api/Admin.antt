-- ===== src/Api/Admin.antt =====
-- src/api/inventory.py, src/api/products.py, src/api/warehouses.py and src/api/auth.py.
use inventory_reservation_or.Prelude.{ℕ, String, Bool, Option, List, [], ◌∷◌}
use inventory_reservation_or.Prelude.Int.{ℤ}
use inventory_reservation_or.Models.{
  Uid, UserRole, User, Product, Warehouse, Inventory, LowStockAlert, InventoryAdjustmentRequest,
}
use inventory_reservation_or.Session.{Action, pure, gets, or_raise, ◌>>=◌, ◌>>◌, validation_error}
use inventory_reservation_or.Security.{Crypto}
use inventory_reservation_or.Services.Adjustments
use inventory_reservation_or.Services.Adjustments.{
  WarehouseInventoryLine, get_inventory_for_product,
}
use inventory_reservation_or.Services.LowStock
use inventory_reservation_or.Services.LowStock.{list_alerts}
use inventory_reservation_or.Services.Catalog
use inventory_reservation_or.Services.Catalog.{WarehouseCreateRequest, get_product_or_404}
use inventory_reservation_or.Services.Auth
use inventory_reservation_or.Services.Auth.{RegisterRequest, LoginRequest, TokenResponse}
use inventory_reservation_or.Api.Deps.{require_roles}
use inventory_reservation_or.Api.Requests.{
  ProductBody, parse_adjustment, parse_threshold, parse_register, parse_login, parse_product,
  parse_warehouse,
}
use inventory_reservation_or.Api.Orders.{refused, both}

abbrev pub admin_only : List UserRole
admin_only = UserRole.admin ∷ []

-- `InventoryAdjustmentResponse`, `LowStockThresholdResponse` and `UserResponse`
pub record InventoryAdjustmentResponse : Type 0 where
  pub product_id : Uid
  pub warehouse_id : Uid
  pub available_quantity : ℕ
  pub reserved_quantity : ℕ

abbrev pub to_adjustment : Inventory → InventoryAdjustmentResponse
to_adjustment row = record {
  product_id = row.product_id;
  warehouse_id = row.warehouse_id;
  available_quantity = row.available_quantity;
  reserved_quantity = row.reserved_quantity;
}

pub record LowStockThresholdResponse : Type 0 where
  pub product_id : Uid
  pub warehouse_id : Uid
  pub threshold : ℕ
  pub is_low_stock : Bool

-- The threshold of the response is an `int`, which refuses a `None`.
abbrev pub threshold_response : Inventory → Action LowStockThresholdResponse
threshold_response row = do
  level ← or_raise row.low_stock_threshold validation_error
  pure (record {
    product_id = row.product_id;
    warehouse_id = row.warehouse_id;
    threshold = level;
    is_low_stock = row.is_low_stock;
  })

pub record UserResponse : Type 0 where
  pub id : Uid
  pub email : String
  pub role : UserRole

abbrev pub to_user_response : User → UserResponse
to_user_response user = record { id = user.id; email = user.email; role = user.role }

module _ (crypto : Crypto) where
  unfoldable pub create_adjustment :
      InventoryAdjustmentRequest → Option String → Action InventoryAdjustmentResponse
  unfolding require_roles parse_adjustment Adjustments.create_adjustment
  create_adjustment body credentials = do
    require_roles crypto admin_only credentials
    payload ← or_raise (parse_adjustment body) refused
    row ← Adjustments.create_adjustment payload
    pure (to_adjustment row)

  unfoldable pub list_low_stock_alerts : Option Uid → Option String → Action (List LowStockAlert)
  unfolding require_roles list_alerts
  list_low_stock_alerts warehouse_id credentials = do
    require_roles crypto admin_only credentials
    gets (list_alerts warehouse_id 100)

  unfoldable pub set_low_stock_threshold :
      Uid → Uid → ℤ → Option String → Action LowStockThresholdResponse
  unfolding require_roles parse_threshold LowStock.set_threshold
  set_low_stock_threshold product_id warehouse_id body credentials = do
    require_roles crypto admin_only credentials
    threshold ← or_raise (parse_threshold body) refused
    row ← LowStock.set_threshold product_id warehouse_id threshold
    threshold_response row

  unfoldable pub get_inventory : Uid → Option String → Action (List WarehouseInventoryLine)
  unfolding require_roles get_inventory_for_product
  get_inventory product_id credentials = do
    require_roles crypto admin_only credentials
    get_inventory_for_product product_id

  unfoldable pub create_product : ProductBody → Option String → Action Product
  unfolding require_roles parse_product Catalog.create_product
  create_product body credentials = do
    require_roles crypto admin_only credentials
    payload ← or_raise (parse_product body) refused
    Catalog.create_product payload

  unfoldable pub get_product : Uid → Option String → Action Product
  unfolding require_roles get_product_or_404
  get_product product_id credentials = do
    require_roles crypto both credentials
    get_product_or_404 product_id

  unfoldable pub create_warehouse : WarehouseCreateRequest → Option String → Action Warehouse
  unfolding require_roles parse_warehouse Catalog.create_warehouse
  create_warehouse body credentials = do
    require_roles crypto admin_only credentials
    payload ← or_raise (parse_warehouse body) refused
    Catalog.create_warehouse payload

  unfoldable pub register : (String → Option String) → RegisterRequest → Action UserResponse
  unfolding parse_register Auth.register
  register validate_email body = do
    payload ← or_raise (parse_register validate_email body) refused
    user ← Auth.register crypto payload
    pure (to_user_response user)

  unfoldable pub login : (String → Option String) → ℕ → LoginRequest → Action TokenResponse
  unfolding parse_login Auth.login
  login validate_email jwt_expire_minutes body = do
    payload ← or_raise (parse_login validate_email body) refused
    Auth.login crypto jwt_expire_minutes payload
