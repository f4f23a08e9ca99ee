-- ===== src/Api/Atomic.antt =====
-- src/api as a whole: what a request does to the books.
pub mod Services
pub mod Endpoints
use inventory_reservation_or.Prelude.{◌≡◌, refl, ◌∙◌, sym}
use inventory_reservation_or.Session.{Session, Result, ok, err, Action, rollback}
use inventory_reservation_or.Session.Ensures.{Ensures}
use inventory_reservation_or.Stock.Books.Valid.{IsValid, rollback-IsValid}
use inventory_reservation_or.Api.Errors.{Response, success, failure, respond}
use inventory_reservation_or.Api.Deps.{get_db}
use inventory_reservation_or.Api.Server.{
  Config, Request, Body, post_order, get_order_by_id, get_orders, post_cancel, post_adjustment,
  get_low_stock, put_threshold, get_product_inventory, post_product, get_product_by_id,
  post_warehouse, post_register, post_login, with_body, endpoint, serve, success_status,
}
use inventory_reservation_or.Api.Reading.{
  StillCommitted, IsReading, IsTransaction, IsReading-IsTransaction, answer-IsTransaction,
}
use inventory_reservation_or.Api.Atomic.Endpoints.{
  post_order-IsTransaction, get_order-IsReading, get_orders-IsReading, post_cancel-IsTransaction,
  post_adjustment-IsTransaction, get_low_stock-IsReading, put_threshold-IsTransaction,
  get_product_inventory-IsReading, post_product-IsTransaction, get_product-IsReading,
  post_warehouse-IsTransaction, post_register-IsTransaction, post_login-IsReading,
}

module _ {A : Type 0} (f : A → Body) (m : Action A) where
  wrap : IsTransaction m → IsTransaction (with_body f m)
  wrap h = answer-IsTransaction m (λ a _. f a) h

  wrap_reading : IsReading m → IsTransaction (with_body f m)
  wrap_reading h = wrap (IsReading-IsTransaction m h)

-- What a request leaves behind, by its response.
abbrev pub ServeEffect : Session → Response Body × Session → Type 0
ServeEffect s (success status body, s') = IsValid s'
ServeEffect s (failure status code, s') = (s'.tables ≡ s.tables) × (s'.committed ≡ s.committed)

served :
    (request : Request) (s : Session) (out : Result Body × Session)
    → IsValid s
    → Ensures (λ _. IsValid) (StillCommitted s.committed) out
    → ServeEffect s (respond (success_status request) out.0, rollback out.1)
unfolding rollback
served request s (ok body, s') v h = record { idle = refl; consistent = rw (← h.idle) h.consistent }
served request s (err e, s') v h = (h ∙ sym v.idle, h)

module _ (config : Config) where
  endpoint-IsTransaction : (request : Request) → IsTransaction (endpoint config request)
  unfolding endpoint
  endpoint-IsTransaction (post_order body key token) =
      wrap _ _ (post_order-IsTransaction config body key token)
  endpoint-IsTransaction (get_order_by_id id token) =
      wrap_reading _ _ (get_order-IsReading config id token)
  endpoint-IsTransaction (get_orders query token) =
      wrap_reading _ _ (get_orders-IsReading config query token)
  endpoint-IsTransaction (post_cancel id token) =
      wrap _ _ (post_cancel-IsTransaction config id token)
  endpoint-IsTransaction (post_adjustment body token) =
      wrap _ _ (post_adjustment-IsTransaction config body token)
  endpoint-IsTransaction (get_low_stock warehouse_id token) =
      wrap_reading _ _ (get_low_stock-IsReading config warehouse_id token)
  endpoint-IsTransaction (put_threshold product_id warehouse_id level token) =
      wrap _ _ (put_threshold-IsTransaction config product_id warehouse_id level token)
  endpoint-IsTransaction (get_product_inventory id token) =
      wrap_reading _ _ (get_product_inventory-IsReading config id token)
  endpoint-IsTransaction (post_product body token) =
      wrap _ _ (post_product-IsTransaction config body token)
  endpoint-IsTransaction (get_product_by_id id token) =
      wrap_reading _ _ (get_product-IsReading config id token)
  endpoint-IsTransaction (post_warehouse body token) =
      wrap _ _ (post_warehouse-IsTransaction config body token)
  endpoint-IsTransaction (post_register body) = wrap _ _ (post_register-IsTransaction config body)
  endpoint-IsTransaction (post_login body) = wrap_reading _ _ (post_login-IsReading config body)

  -- From a session with agreeing books and nothing uncommitted, any request to any endpoint with a
  -- database session leaves the books in agreement and nothing uncommitted if its response is a
  -- success, and leaves all tables, and what is committed, as they were if its response is an
  -- error.
  pub serve_effect :
      (request : Request) (s : Session) → IsValid s → ServeEffect s (serve config request s)
  unfolding serve get_db
  serve_effect request s v =
      served request s (endpoint config request s) v
        ((endpoint-IsTransaction request).runs s.committed s (v, refl))
