-- ===== src/Api/Gate.antt =====
-- Who may send which request: the dependencies of the routes of src/api on `require_roles`.
pub mod Routes
use inventory_reservation_or.Prelude.{
  ℕ, String, ◌≡◌, refl, ◌∙◌, ap, Bool, true, false, not, Option, none, some, List, [], ◌∷◌,
  if◌then◌else◌, Bool-cases, Option-cases, arith, inl, inr,
}
use inventory_reservation_or.Models.{UserRole, User}
use inventory_reservation_or.Session.Raises.{Raises, bind-Raises, bind-raises, bind-continues}
use inventory_reservation_or.Session.{
  Session, Result, ok, err, Error, Action, or_raise, raise_if, lift, gets, pure, ◌>>=◌, ◌>>◌,
  unauthorized, forbidden, rollback,
}
use inventory_reservation_or.Security.{Crypto, TokenClaims, decode_access_token}
use inventory_reservation_or.Repositories.Catalog.{user_by_id}
use inventory_reservation_or.Services.Orders.Create
use inventory_reservation_or.Services.Orders.Cancel
use inventory_reservation_or.Services.Orders.Cancel.{get_order_or_404}
use inventory_reservation_or.Services.Adjustments
use inventory_reservation_or.Services.Adjustments.{get_inventory_for_product}
use inventory_reservation_or.Services.LowStock
use inventory_reservation_or.Services.LowStock.{list_alerts}
use inventory_reservation_or.Services.Catalog
use inventory_reservation_or.Services.Catalog.{get_product_or_404}
use inventory_reservation_or.Api.Requests.{
  parse_order, parse_adjustment, parse_threshold, parse_product, parse_warehouse, is_page,
}
use inventory_reservation_or.Api.Errors.{Response, success, failure, respond, status_code, code}
use inventory_reservation_or.Api.Deps.{get_db, get_current_user, require_roles, is_allowed}
use inventory_reservation_or.Api.Orders
use inventory_reservation_or.Api.Orders.{get_order, both, refused, order_response, list_response}
use inventory_reservation_or.Api.Admin
use inventory_reservation_or.Api.Admin.{admin_only, to_adjustment, threshold_response}
use inventory_reservation_or.Api.Server.{
  Config, Request, Body, adjustment_body, alerts_body, inventory_body, order_body, orders_body,
  product_body, threshold_body, warehouse_body, post_order, get_order_by_id, get_orders,
  post_cancel, post_adjustment, get_low_stock, put_threshold, get_product_inventory, post_product,
  get_product_by_id, post_warehouse, post_register, post_login, with_body, endpoint, serve,
  success_status,
}

-- Registration and log-in are open to all.
abbrev pub is_public : Request → Bool
is_public (post_register _) = true
is_public (post_login _) = true
is_public _ = false

-- Orders are created by clients, stock and catalogue are the administrators', and the rest is
-- open to both.
abbrev pub may_send : UserRole → Request → Bool
may_send UserRole.client (post_order _ _ _) = true
may_send UserRole.admin (post_order _ _ _) = false
may_send UserRole.client (post_adjustment _ _) = false
may_send UserRole.client (get_low_stock _ _) = false
may_send UserRole.client (put_threshold _ _ _ _) = false
may_send UserRole.client (get_product_inventory _ _) = false
may_send UserRole.client (post_product _ _) = false
may_send UserRole.client (post_warehouse _ _) = false
may_send _ _ = true

-- The bearer token of a request
abbrev pub token_of : Request → Option String
token_of (post_order _ _ token) = token
token_of (get_order_by_id _ token) = token
token_of (get_orders _ token) = token
token_of (post_cancel _ token) = token
token_of (post_adjustment _ token) = token
token_of (get_low_stock _ token) = token
token_of (put_threshold _ _ _ token) = token
token_of (get_product_inventory _ token) = token
token_of (post_product _ token) = token
token_of (get_product_by_id _ token) = token
token_of (post_warehouse _ token) = token
token_of _ = none

-- How a request is answered before anything of it is looked at, by who sent it.
abbrev pub Gated : Request → Result User → Response Body → Type 0
Gated request (err e) response = response ≡ failure 401 "UNAUTHORIZED"
Gated request (ok user) response =
    if may_send user.role request then Unit else (response ≡ failure 403 "FORBIDDEN")

-- The error is an `UnauthorizedError`.
abbrev pub IsUnauthorized : {A : Type 0} → Result A → Type 0
IsUnauthorized (ok a) = Unit
IsUnauthorized (err e) = (status_code e ≡ 401) × (code e ≡ "UNAUTHORIZED")

module _ (crypto : Crypto) where
  found-IsUnauthorized :
      (found : Option User) (message : String) (s : Session)
      → IsUnauthorized (or_raise found (unauthorized message) s).0
  found-IsUnauthorized none message s = (refl, refl)
  found-IsUnauthorized (some user) message s = tt

  claims-IsUnauthorized :
      (decoded : Option TokenClaims) (s : Session)
      → IsUnauthorized
          ((or_raise decoded (unauthorized "Invalid or expired token") >>= λ c.
              (gets (user_by_id c.sub) >>= λ u. or_raise u (unauthorized "User no longer exists")))
            s).0
  claims-IsUnauthorized none s = (refl, refl)
  claims-IsUnauthorized (some claims) s = found-IsUnauthorized (user_by_id claims.sub s) _ s

  pub get_current_user-IsUnauthorized :
      (token : Option String) (s : Session) → IsUnauthorized (get_current_user crypto token s).0
  unfolding get_current_user
  get_current_user-IsUnauthorized none s = (refl, refl)
  get_current_user-IsUnauthorized (some token) s =
      claims-IsUnauthorized (decode_access_token crypto token s).0
        (decode_access_token crypto token s).1

  pub require_roles-raises :
      (roles : List UserRole) (token : Option String) (s : Session) (e : Error)
      → (get_current_user crypto token s).0 ≡ err e
      → (require_roles crypto roles token s).0 ≡ err e
  unfolding require_roles
  require_roles-raises roles token s e h =
      bind-raises (get_current_user crypto token)
        (λ u. (raise_if (not (is_allowed u.role roles)) forbidden >>= λ _. pure u)) s e h

  pub require_roles-forbids :
      (roles : List UserRole) (token : Option String) (s : Session) (user : User)
      → (get_current_user crypto token s).0 ≡ ok user
      → is_allowed user.role roles ≡ false
      → (require_roles crypto roles token s).0 ≡ err forbidden
  unfolding require_roles
  require_roles-forbids roles token s user h refused =
      ap (λ (out : Result User × Session). out.0)
        (bind-continues (get_current_user crypto token)
          (λ u. (raise_if (not (is_allowed u.role roles)) forbidden >>= λ _. pure u)) s user h)
      ∙ rw refused refl
