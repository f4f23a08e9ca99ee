-- ===== src/Api/Atomic/Services.antt =====
-- The operations of src/services that the endpoints call, as transactions on the books.
use inventory_reservation_or.Prelude.{ℕ, String, refl, Option, none, some, not}
use inventory_reservation_or.Models.{
  Uid, User, Product, Warehouse, Order, OrderCreateRequest, OrderResponse,
  InventoryAdjustmentRequest,
}
use inventory_reservation_or.Session.{
  data_error, Session, Tables, Result, ok, err, lift, commit, generate_id, now, ◌>>=◌, pure,
  unauthorized,
}
use inventory_reservation_or.Session.Ensures.{Ensures}
use inventory_reservation_or.Security.{Crypto, create_access_token, verify_password}
use inventory_reservation_or.Repositories.Catalog.{
  add_product_unless, insert_product, product_by_sku, add_warehouse_unless, insert_warehouse,
  add_user_unless, insert_user, user_by_email,
}
use inventory_reservation_or.Services.Orders.Create.{create_order}
use inventory_reservation_or.Services.Orders.Cancel.{cancel_order}
use inventory_reservation_or.Services.Adjustments.{create_adjustment}
use inventory_reservation_or.Services.Catalog.{
  ProductCreateRequest, WarehouseCreateRequest, create_product, create_warehouse, raise_if_taken,
  numeric,
}
use inventory_reservation_or.Services.Auth.{
  RegisterRequest, LoginRequest, register, login, grant, raise_if_registered, new_user,
}
use inventory_reservation_or.Stock.Books.Valid.{IsValid}
use inventory_reservation_or.Stock.Books.Place.{CreateEffect, create_order_atomic}
use inventory_reservation_or.Stock.Books.Cancel.{CancelEffect, cancel_order_effect}
use inventory_reservation_or.Stock.Books.Adjust.{create_adjustment_effect}
use inventory_reservation_or.Api.Reading.{
  Ready, StillCommitted, IsReading, IsTransaction, gets-IsReading, pure-IsReading,
  raise_if-IsReading, or_raise-IsReading, bind-IsReading, bind-IsTransaction, started-IsTransaction,
}

create_at :
    (s : Session) (out : Result OrderResponse × Session)
    → CreateEffect s out
    → Ensures (λ _. IsValid) (StillCommitted s.committed) out
create_at s (ok response, s') h = h
create_at s (err e, s') h = h.1

pub create_order-IsTransaction :
    (request_hash : OrderCreateRequest → String) (timeout : ℕ) (payload : OrderCreateRequest)
    (user : User) (key : Option String)
    → IsTransaction (create_order request_hash timeout payload user key)
create_order-IsTransaction request_hash timeout payload user key =
    started-IsTransaction _
      (λ s v. create_at s _ (create_order_atomic request_hash timeout payload user key s v))

cancel_at :
    (order_id : Uid) (s : Session) (out : Result Order × Session)
    → CancelEffect order_id s out.0 out.1
    → Ensures (λ _. IsValid) (StillCommitted s.committed) out
cancel_at order_id s (ok order, s') h = h.valid
cancel_at order_id s (err e, s') h = h.1

pub cancel_order-IsTransaction :
    (order_id : Uid) (user : User) → IsTransaction (cancel_order order_id user)
cancel_order-IsTransaction order_id user =
    started-IsTransaction _ (λ s v. cancel_at order_id s _ (cancel_order_effect order_id user s v))

pub create_adjustment-IsTransaction :
    (payload : InventoryAdjustmentRequest) → IsTransaction (create_adjustment payload)
create_adjustment-IsTransaction payload = started-IsTransaction _ (create_adjustment_effect payload)

generate_id-IsReading : IsReading (lift generate_id)
unfolding generate_id
generate_id-IsReading = record {
  runs = λ c s r. (record { idle = r.0.idle; consistent = r.0.consistent }, r.1);
}

raise_if_taken-IsReading :
    (sku : String) (found : Option Product) → IsReading (raise_if_taken sku found)
raise_if_taken-IsReading sku none = record { runs = λ c s r. r }
raise_if_taken-IsReading sku (some taken) = record { runs = λ c s r. r.1 }

-- An insert that leaves the books alone, and the commit.
product-added :
    (product : Product) (found : Option Product) (c : Tables) (s : Session)
    → Ready c s
    → Ensures
        (λ _. IsValid)
        (StillCommitted c)
        ((add_product_unless product found >>= λ x. (lift commit >>= λ _. pure x)) s)
unfolding commit
product-added product none c s r = record { idle = refl; consistent = r.0.consistent }
product-added product (some clash) c s r = r.1

product-IsTransaction :
    (product : Product)
    → IsTransaction (insert_product product >>= λ x. (lift commit >>= λ _. pure x))
unfolding insert_product
product-IsTransaction product = record { runs = λ c s r. product-added product _ c s r }

pub create_product-IsTransaction :
    (payload : ProductCreateRequest) → IsTransaction (create_product payload)
unfolding create_product
create_product-IsTransaction payload =
    bind-IsTransaction _ _ (gets-IsReading (product_by_sku payload.sku)) (λ found.
      bind-IsTransaction _ _ (raise_if_taken-IsReading payload.sku found) (λ _.
        bind-IsTransaction _ _ generate_id-IsReading (λ id.
          bind-IsTransaction _ _ (or_raise-IsReading (numeric payload.price) data_error) (λ price.
            product-IsTransaction
              (record { id = id; sku = payload.sku; name = payload.name; price = price })))))

warehouse-added :
    (warehouse : Warehouse) (found : Option Warehouse) (c : Tables) (s : Session)
    → Ready c s
    → Ensures
        (λ _. IsValid)
        (StillCommitted c)
        ((add_warehouse_unless warehouse found >>= λ x. (lift commit >>= λ _. pure x)) s)
unfolding commit
warehouse-added warehouse none c s r = record { idle = refl; consistent = r.0.consistent }
warehouse-added warehouse (some clash) c s r = r.1

warehouse-IsTransaction :
    (warehouse : Warehouse)
    → IsTransaction (insert_warehouse warehouse >>= λ x. (lift commit >>= λ _. pure x))
unfolding insert_warehouse
warehouse-IsTransaction warehouse = record { runs = λ c s r. warehouse-added warehouse _ c s r }

pub create_warehouse-IsTransaction :
    (payload : WarehouseCreateRequest) → IsTransaction (create_warehouse payload)
unfolding create_warehouse
create_warehouse-IsTransaction payload = bind-IsTransaction _ _ generate_id-IsReading (λ id.
    warehouse-IsTransaction (record { id = id; name = payload.name; location = payload.location }))

raise_if_registered-IsReading : (found : Option User) → IsReading (raise_if_registered found)
raise_if_registered-IsReading none = record { runs = λ c s r. r }
raise_if_registered-IsReading (some taken) = record { runs = λ c s r. r.1 }

user-added :
    (user : User) (found : Option User) (c : Tables) (s : Session)
    → Ready c s
    → Ensures
        (λ _. IsValid)
        (StillCommitted c)
        ((add_user_unless user found >>= λ x. (lift commit >>= λ _. pure x)) s)
unfolding commit
user-added user none c s r = record { idle = refl; consistent = r.0.consistent }
user-added user (some clash) c s r = r.1

user-IsTransaction :
    (user : User) → IsTransaction (insert_user user >>= λ x. (lift commit >>= λ _. pure x))
unfolding insert_user
user-IsTransaction user = record { runs = λ c s r. user-added user _ c s r }

module _ (crypto : Crypto) where
  pub register-IsTransaction : (payload : RegisterRequest) → IsTransaction (register crypto payload)
  unfolding register
  register-IsTransaction payload =
      bind-IsTransaction _ _ (gets-IsReading (user_by_email payload.email)) (λ found.
        bind-IsTransaction _ _ (raise_if_registered-IsReading found) (λ _.
          bind-IsTransaction _ _ generate_id-IsReading
            (λ id. user-IsTransaction (new_user crypto id payload))))

  token-IsReading :
      (jwt_expire_minutes : ℕ) (user : User)
      → IsReading
          (lift (create_access_token crypto jwt_expire_minutes user.id user.email user.role))
  unfolding create_access_token now
  token-IsReading jwt_expire_minutes user = record {
    runs = λ c s r. (record { idle = r.0.idle; consistent = r.0.consistent }, r.1);
  }

  grant-IsReading :
      (jwt_expire_minutes : ℕ) (payload : LoginRequest) (found : Option User)
      → IsReading (grant crypto jwt_expire_minutes payload found)
  unfolding grant
  grant-IsReading jwt_expire_minutes payload none = record { runs = λ c s r. r.1 }
  grant-IsReading jwt_expire_minutes payload (some user) =
      bind-IsReading _ _
        (raise_if-IsReading (not (verify_password crypto payload.password user.hashed_password))
          (unauthorized "Invalid email or password"))
        (λ _.
          bind-IsReading _ _ (token-IsReading jwt_expire_minutes user)
            (λ token. pure-IsReading (record { access_token = token; role = user.role })))

  pub login-IsReading :
      (jwt_expire_minutes : ℕ) (payload : LoginRequest)
      → IsReading (login crypto jwt_expire_minutes payload)
  unfolding login
  login-IsReading jwt_expire_minutes payload = record {
    runs = λ c s r. (grant-IsReading jwt_expire_minutes payload _).runs c s r;
  }
