-- ===== src/Repositories/Catalog.antt =====
-- src/repositories/{product,warehouse,user}_repository.py. A second row that clashes with a
-- primary key or a unique column is refused by the database at the flush.
use text.Mathlib.Text.{◌==◌ as str_eq}
use inventory_reservation_or.Prelude.{String, Option, none, some, List, ◌∷◌, ◌==◌, ◌||◌}
use inventory_reservation_or.Models.{Uid, Product, Warehouse, User}
use inventory_reservation_or.Session.{Session, Action, ok, err, integrity_error}
use inventory_reservation_or.Repositories.Reservation.{is_among}
use inventory_reservation_or.Table.{find, select}

-- product_repository
unfoldable pub product_by_id : Uid → Session → Option Product
product_by_id product_id s = find (λ p. p.id == product_id) s.tables.products

unfoldable pub product_by_sku : String → Session → Option Product
product_by_sku sku s = find (λ p. str_eq p.sku sku) s.tables.products

-- The dict from ids to products is the list of the products, read by `find`.
unfoldable pub get_many_by_ids : List Uid → Session → List Product
get_many_by_ids product_ids s = select (λ p. is_among product_ids p.id) s.tables.products

abbrev pub add_product_unless : Product → Option Product → Action Product
add_product_unless product (some _) s = (err integrity_error, s)
add_product_unless product none s =
    (ok product, record s { tables = record s.tables { products = product ∷ s.tables.products } })

unfoldable pub insert_product : Product → Action Product
insert_product product s =
    add_product_unless product
      (find (λ p. p.id == product.id || str_eq p.sku product.sku) s.tables.products) s

-- warehouse_repository
unfoldable pub warehouse_by_id : Uid → Session → Option Warehouse
warehouse_by_id warehouse_id s = find (λ w. w.id == warehouse_id) s.tables.warehouses

abbrev pub add_warehouse_unless : Warehouse → Option Warehouse → Action Warehouse
add_warehouse_unless warehouse (some _) s = (err integrity_error, s)
add_warehouse_unless warehouse none s = (
  ok warehouse,
  record s { tables = record s.tables { warehouses = warehouse ∷ s.tables.warehouses } },
)

unfoldable pub insert_warehouse : Warehouse → Action Warehouse
insert_warehouse warehouse s =
    add_warehouse_unless warehouse (find (λ w. w.id == warehouse.id) s.tables.warehouses) s

-- user_repository
unfoldable pub user_by_id : Uid → Session → Option User
user_by_id user_id s = find (λ u. u.id == user_id) s.tables.users

unfoldable pub user_by_email : String → Session → Option User
user_by_email email s = find (λ u. str_eq u.email email) s.tables.users

abbrev pub add_user_unless : User → Option User → Action User
add_user_unless user (some _) s = (err integrity_error, s)
add_user_unless user none s =
    (ok user, record s { tables = record s.tables { users = user ∷ s.tables.users } })

unfoldable pub insert_user : User → Action User
insert_user user s =
    add_user_unless user (find (λ u. u.id == user.id || str_eq u.email user.email) s.tables.users) s
