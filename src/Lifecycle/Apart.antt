-- ===== src/Lifecycle/Apart.antt =====
-- The transactions that touch neither stock nor orders: the outbox relay, and those on products,
-- warehouses and users.
use inventory_reservation_or.Prelude.{
  ℕ, String, ◌≡◌, refl, sym, ap, ◌∙◌, Option, none, some, List, Option-cases, inl, inr,
}
use inventory_reservation_or.Models.{
  User, Product, Warehouse, Order, Inventory, InventoryReservation, InventoryAuditLog,
}
use inventory_reservation_or.Session.{
  Session, Tables, Error, Result, ok, err, commit, rollback, generate_id, lift, pure, ◌>>=◌, ◌>>◌,
}
use inventory_reservation_or.Session.Ensures.{Ensures}
use inventory_reservation_or.Repositories.Catalog.{
  add_product_unless, insert_product, product_by_sku, add_warehouse_unless, insert_warehouse,
  add_user_unless, insert_user, user_by_email,
}
use inventory_reservation_or.Security.{Crypto}
use inventory_reservation_or.Services.Auth.{RegisterRequest, register, ensure_default_admin}
use inventory_reservation_or.Services.Catalog.{
  ProductCreateRequest, numeric, create_product, WarehouseCreateRequest, create_warehouse,
}
use inventory_reservation_or.Workers.Relay.{Task, relay_once}
use inventory_reservation_or.Workers.Relay.Round.{RelayEffect, relay_once-RelayEffect}
use inventory_reservation_or.Stock.Books.Valid.{IsValid}

-- What the books and the orders are made of.
abbrev pub Kept : Type 0
Kept = List Inventory × List InventoryReservation × List InventoryAuditLog × List Order

abbrev pub kept : Tables → Kept
kept t = (t.inventory, t.reservations, t.audit_logs, t.orders)

-- It commits and keeps them, or raises with nothing committed.
abbrev pub IsApart : {A : Type 0} → Session → Result A × Session → Type 0
IsApart s out =
    Ensures (λ _ s'. (s'.committed ≡ s'.tables) × (kept s'.tables ≡ kept s.tables))
      (λ s'. s'.committed ≡ s.committed) out

-- At the end of its session
pub undone-kept :
    {A : Type 0} (s : Session) (out : Result A × Session)
    → IsValid s
    → IsApart s out
    → kept (rollback out.1).tables ≡ kept s.tables
unfolding rollback
undone-kept s (ok a, s') v h = ap kept h.0 ∙ h.1
undone-kept s (err e, s') v h = ap kept (h ∙ sym v.idle)

kept-IsValid :
    (s s' : Session) → IsValid s → kept (rollback s').tables ≡ kept s.tables → IsValid (rollback s')
unfolding rollback
kept-IsValid s s' v h =
    let inventory = ap (λ (k : Kept). k.0) h in
    let reservations = ap (λ (k : Kept). k.1) h in
    let audit_logs = ap (λ (k : Kept). k.2) h in
    record { idle = refl; consistent = rw (inventory, reservations, audit_logs) v.consistent }

pub undone-IsValid :
    {A : Type 0} (s : Session) (out : Result A × Session)
    → IsValid s
    → IsApart s out
    → IsValid (rollback out.1)
undone-IsValid s out v h = kept-IsValid s out.1 v (undone-kept s out v h)

add_product-IsApart :
    (product : Product) (found : Option Product) (s : Session)
    → IsApart s ((add_product_unless product found >>= λ p. (lift commit >> pure p)) s)
unfolding commit
add_product-IsApart product none s = (refl, refl)
add_product-IsApart product (some taken) s = refl

pub create_product-IsApart :
    (payload : ProductCreateRequest) (s : Session) → IsApart s (create_product payload s)
unfolding create_product insert_product generate_id
create_product-IsApart payload s = elim (Option-cases (product_by_sku payload.sku s)) [
  | inl free ↦ elim (Option-cases (numeric payload.price)) [
    | inl large ↦ rw (free, large) refl
    | inr (price, fits) ↦ rw (free, fits) (add_product-IsApart _ _ (generate_id s).1)
  ]
  | inr (taken, found) ↦ rw found refl
]

add_warehouse-IsApart :
    (warehouse : Warehouse) (found : Option Warehouse) (s : Session)
    → IsApart s ((add_warehouse_unless warehouse found >>= λ w. (lift commit >> pure w)) s)
unfolding commit
add_warehouse-IsApart warehouse none s = (refl, refl)
add_warehouse-IsApart warehouse (some taken) s = refl

pub create_warehouse-IsApart :
    (payload : WarehouseCreateRequest) (s : Session) → IsApart s (create_warehouse payload s)
unfolding create_warehouse insert_warehouse generate_id
create_warehouse-IsApart payload s = add_warehouse-IsApart _ _ (generate_id s).1

module _ (crypto : Crypto) where
  add_user-IsApart :
      (user : User) (found : Option User) (s : Session)
      → IsApart s ((add_user_unless user found >>= λ u. (lift commit >> pure u)) s)
  unfolding commit
  add_user-IsApart user none s = (refl, refl)
  add_user-IsApart user (some taken) s = refl

  pub register-IsApart :
      (payload : RegisterRequest) (s : Session) → IsApart s (register crypto payload s)
  unfolding register insert_user generate_id
  register-IsApart payload s = elim (Option-cases (user_by_email payload.email s)) [
    | inl free ↦ rw free (add_user-IsApart _ _ (generate_id s).1)
    | inr (taken, found) ↦ rw found refl
  ]

  add_admin-IsApart :
      (user : User) (found : Option User) (s : Session)
      → IsApart s ((add_user_unless user found >> lift commit) s)
  unfolding commit
  add_admin-IsApart user none s = (refl, refl)
  add_admin-IsApart user (some taken) s = refl

  -- The default admin, who may be there already: then nothing is done.
  pub ensure_default_admin-IsApart :
      (email password : String) (s : Session)
      → IsValid s
      → IsApart s (ensure_default_admin crypto email password s)
  unfolding ensure_default_admin insert_user generate_id
  ensure_default_admin-IsApart email password s v = elim (Option-cases (user_by_email email s)) [
    | inl free ↦ rw free (add_admin-IsApart _ _ (generate_id s).1)
    | inr (taken, found) ↦ rw found (sym v.idle, refl)
  ]

-- A round of the relay, whether its answer is a number of events or an error.
relayed-kept :
    (s : Session) (out : Result ℕ × List Task × Session)
    → IsValid s
    → RelayEffect s out
    → kept (rollback out.2).tables ≡ kept s.tables
unfolding rollback
relayed-kept s (ok n, sent, s') v h = ap kept h.2 ∙ ap kept h.3
relayed-kept s (err e, sent, s') v h = ap kept (h.1 ∙ sym v.idle)

pub relay_once-kept :
    (delay : Task → Option Error) (s : Session)
    → IsValid s
    → kept (rollback (relay_once delay s).2).tables ≡ kept s.tables
relay_once-kept delay s v = relayed-kept s (relay_once delay s) v (relay_once-RelayEffect delay s)

pub relay_once-IsValid :
    (delay : Task → Option Error) (s : Session)
    → IsValid s
    → IsValid (rollback (relay_once delay s).2)
relay_once-IsValid delay s v = kept-IsValid s (relay_once delay s).2 v (relay_once-kept delay s v)
