-- ===== src/Api/Atomic/Endpoints.antt =====
-- The endpoints of src/api as transactions on the books.

use inventory_reservation_or.Prelude.{String, not, Option, [], ◌∷◌, map}
use inventory_reservation_or.Prelude.Int.{ℤ, pos_part}
use inventory_reservation_or.Models.{Uid, UserRole, User, InventoryAdjustmentRequest}
use inventory_reservation_or.Session.{forbidden, ◌>>=◌, order_not_found, product_not_found}
use inventory_reservation_or.Session.Ensures.{Ensures-both, bind-Ensures}
use inventory_reservation_or.Stock.Books.Valid.{IsValid}
use inventory_reservation_or.Stock.Books.Threshold.{set_threshold_effect}
use inventory_reservation_or.Stock.Level.{IsLevel, set_threshold-IsLevel}
use inventory_reservation_or.Repositories.Order
use inventory_reservation_or.Repositories.Inventory.{list_for_product}
use inventory_reservation_or.Repositories.Catalog.{product_by_id}
use inventory_reservation_or.Services.Auth
use inventory_reservation_or.Services.Auth.{RegisterRequest, LoginRequest}
use inventory_reservation_or.Services.Orders.Cancel
use inventory_reservation_or.Services.Orders.Cancel.{is_forbidden, get_order_or_404}
use inventory_reservation_or.Services.Adjustments
use inventory_reservation_or.Services.Adjustments.{get_inventory_for_product, to_line}
use inventory_reservation_or.Services.LowStock
use inventory_reservation_or.Services.LowStock.{list_alerts}
use inventory_reservation_or.Services.Catalog.{WarehouseCreateRequest, get_product_or_404}
use inventory_reservation_or.Api.Requests.{
  OrderBody, ProductBody, parse_order, parse_adjustment, parse_threshold, parse_register,
  parse_login, parse_product, parse_warehouse, is_page,
}
use inventory_reservation_or.Api.Orders
use inventory_reservation_or.Api.Orders.{
  refused, both, OrderQuery, list_response, order_response, get_order,
}
use inventory_reservation_or.Api.Admin
use inventory_reservation_or.Api.Admin.{
  admin_only, to_adjustment, to_user_response, threshold_response,
}
use inventory_reservation_or.Api.Server.{Config}
use inventory_reservation_or.Api.Atomic.Services.{
  create_order-IsTransaction, cancel_order-IsTransaction, create_adjustment-IsTransaction,
  create_product-IsTransaction, create_warehouse-IsTransaction, register-IsTransaction,
  login-IsReading,
}
use inventory_reservation_or.Api.Reading.{
  StillCommitted, IsReading, IsTransaction, gets-IsReading, pure-IsReading, raise_if-IsReading,
  or_raise-IsReading, bind-IsReading, bind-IsTransaction, started-IsTransaction,
  answer-IsTransaction, require_roles-IsReading,
}

-- The answer to a setting of a threshold: the response always has the threshold to tell.
level_answer-IsTransaction :
    (product_id warehouse_id : Uid) (threshold : ℤ)
    → IsTransaction
        (LowStock.set_threshold product_id warehouse_id threshold >>= threshold_response)
level_answer-IsTransaction product_id warehouse_id threshold = record {
  runs = λ c s r.
      let t = pos_part threshold in
      bind-Ensures (λ row s'. IsValid s' × IsLevel product_id warehouse_id t row s') (λ _. IsValid)
        (StillCommitted c) (LowStock.set_threshold product_id warehouse_id threshold)
        threshold_response s
        (Ensures-both (λ _. IsValid) (IsLevel product_id warehouse_id t) (StillCommitted c)
          (λ _. Unit) _
          ((started-IsTransaction _ (set_threshold_effect product_id warehouse_id threshold)).runs c
            s r)
          (set_threshold-IsLevel product_id warehouse_id threshold s))
        (λ row s' h. rw h.1.level h.0);
}

module _ (config : Config) where
  pub post_order-IsTransaction :
      (body : OrderBody) (key token : Option String)
      → IsTransaction (
          Orders.create_order config.crypto config.request_hash config.reservation_timeout body
            token key)
  unfolding Orders.create_order
  post_order-IsTransaction body key token =
      bind-IsTransaction _ _ (require_roles-IsReading config.crypto (UserRole.client ∷ []) token)
        (λ user. bind-IsTransaction _ _ (or_raise-IsReading (parse_order body) refused) (λ payload.
          create_order-IsTransaction config.request_hash config.reservation_timeout payload user
            key))

  get_order_or_404-IsReading : (id : Uid) (user : User) → IsReading (get_order_or_404 id user)
  unfolding get_order_or_404
  get_order_or_404-IsReading id user =
      bind-IsReading _ _ (gets-IsReading (Order.get_by_id id)) (λ found.
        bind-IsReading _ _ (or_raise-IsReading found (order_not_found id)) (λ order.
          bind-IsReading _ _ (raise_if-IsReading (is_forbidden order user) forbidden)
            (λ _. pure-IsReading order)))

  pub get_order-IsReading :
      (id : Uid) (token : Option String) → IsReading (get_order config.crypto id token)
  unfolding get_order
  get_order-IsReading id token =
      bind-IsReading _ _ (require_roles-IsReading config.crypto both token) (λ user.
        bind-IsReading _ _ (get_order_or_404-IsReading id user)
          (λ order. gets-IsReading (order_response order)))

  pub get_orders-IsReading :
      (query : OrderQuery) (token : Option String)
      → IsReading (Orders.list_orders config.crypto query token)
  unfolding Orders.list_orders
  get_orders-IsReading query token =
      bind-IsReading _ _ (require_roles-IsReading config.crypto both token) (λ user.
        bind-IsReading _ _ (raise_if-IsReading (not (is_page query.page query.limit)) refused) (λ _.
          bind-IsReading _ _
            (gets-IsReading (
              Cancel.list_orders user query.status query.created_after query.created_before
                query.page query.limit))
            (λ found. gets-IsReading (list_response query found))))

  pub post_cancel-IsTransaction :
      (id : Uid) (token : Option String)
      → IsTransaction (Orders.cancel_order config.crypto id token)
  unfolding Orders.cancel_order
  post_cancel-IsTransaction id token =
      bind-IsTransaction _ _ (require_roles-IsReading config.crypto both token) (λ user.
        answer-IsTransaction (Cancel.cancel_order id user) order_response
          (cancel_order-IsTransaction id user))

  pub post_adjustment-IsTransaction :
      (body : InventoryAdjustmentRequest) (token : Option String)
      → IsTransaction (Admin.create_adjustment config.crypto body token)
  unfolding Admin.create_adjustment
  post_adjustment-IsTransaction body token =
      bind-IsTransaction _ _ (require_roles-IsReading config.crypto admin_only token) (λ _.
        bind-IsTransaction _ _ (or_raise-IsReading (parse_adjustment body) refused) (λ payload.
          answer-IsTransaction (Adjustments.create_adjustment payload) (λ row _. to_adjustment row)
            (create_adjustment-IsTransaction payload)))

  pub get_low_stock-IsReading :
      (warehouse_id : Option Uid) (token : Option String)
      → IsReading (Admin.list_low_stock_alerts config.crypto warehouse_id token)
  unfolding Admin.list_low_stock_alerts
  get_low_stock-IsReading warehouse_id token =
      bind-IsReading _ _ (require_roles-IsReading config.crypto admin_only token)
        (λ _. gets-IsReading (list_alerts warehouse_id 100))

  pub get_product_inventory-IsReading :
      (id : Uid) (token : Option String) → IsReading (Admin.get_inventory config.crypto id token)
  unfolding Admin.get_inventory get_inventory_for_product
  get_product_inventory-IsReading id token =
      bind-IsReading _ _ (require_roles-IsReading config.crypto admin_only token) (λ _.
        bind-IsReading _ _ (gets-IsReading (product_by_id id)) (λ found.
          bind-IsReading _ _ (or_raise-IsReading found (product_not_found (id ∷ [])))
            (λ _. gets-IsReading (λ s. map to_line (list_for_product id s)))))

  pub post_product-IsTransaction :
      (body : ProductBody) (token : Option String)
      → IsTransaction (Admin.create_product config.crypto body token)
  unfolding Admin.create_product
  post_product-IsTransaction body token =
      bind-IsTransaction _ _ (require_roles-IsReading config.crypto admin_only token) (λ _.
        bind-IsTransaction _ _ (or_raise-IsReading (parse_product body) refused)
          (λ payload. create_product-IsTransaction payload))

  pub get_product-IsReading :
      (id : Uid) (token : Option String) → IsReading (Admin.get_product config.crypto id token)
  unfolding Admin.get_product get_product_or_404
  get_product-IsReading id token =
      bind-IsReading _ _ (require_roles-IsReading config.crypto both token) (λ _.
        bind-IsReading _ _ (gets-IsReading (product_by_id id))
          (λ found. or_raise-IsReading found (product_not_found (id ∷ []))))

  pub post_warehouse-IsTransaction :
      (body : WarehouseCreateRequest) (token : Option String)
      → IsTransaction (Admin.create_warehouse config.crypto body token)
  unfolding Admin.create_warehouse
  post_warehouse-IsTransaction body token =
      bind-IsTransaction _ _ (require_roles-IsReading config.crypto admin_only token) (λ _.
        bind-IsTransaction _ _ (or_raise-IsReading (parse_warehouse body) refused)
          (λ payload. create_warehouse-IsTransaction payload))

  pub post_register-IsTransaction :
      (body : RegisterRequest)
      → IsTransaction (Admin.register config.crypto config.validate_email body)
  unfolding Admin.register
  post_register-IsTransaction body =
      bind-IsTransaction _ _
        (or_raise-IsReading (parse_register config.validate_email body) refused)
        (λ payload.
          answer-IsTransaction (Auth.register config.crypto payload)
            (λ user _. to_user_response user) (register-IsTransaction config.crypto payload))

  pub put_threshold-IsTransaction :
      (product_id warehouse_id : Uid) (level : ℤ) (token : Option String)
      → IsTransaction
          (Admin.set_low_stock_threshold config.crypto product_id warehouse_id level token)
  unfolding Admin.set_low_stock_threshold
  put_threshold-IsTransaction product_id warehouse_id level token =
      bind-IsTransaction _ _ (require_roles-IsReading config.crypto admin_only token) (λ _.
        bind-IsTransaction _ _ (or_raise-IsReading (parse_threshold level) refused)
          (λ threshold. level_answer-IsTransaction product_id warehouse_id threshold))

  pub post_login-IsReading :
      (body : LoginRequest)
      → IsReading (Admin.login config.crypto config.validate_email config.jwt_expire_minutes body)
  unfolding Admin.login
  post_login-IsReading body =
      bind-IsReading _ _ (or_raise-IsReading (parse_login config.validate_email body) refused)
        (λ payload. login-IsReading config.crypto config.jwt_expire_minutes payload)
