-- ===== src/Services/Catalog.antt =====
-- src/services/product_service.py and src/services/warehouse_service.py. The flush of the insert
-- is outside the `try` of `create_product`, so that a clash is raised as the database raises it;
-- the commit itself raises nothing here.
use mathlib.Core.Path.{subst}
use native.Mathlib.Nat.{lt-div-mul-add, div-mul-le_self}
use inventory_reservation_or.Prelude.{
  ◌≡◌, refl, ==_refl, zero, suc, ◌+◌, ◌*◌, ◌/◌, ◌≤◌, ◌<◌, arith, ltb, if◌then◌else◌, Bool-cases,
  Option-cases, inl, inr, ℕ, String, Option, none, some, [], ◌∷◌,
}
use inventory_reservation_or.Models.{Uid, Product, Warehouse}
use inventory_reservation_or.Table.{find}
use inventory_reservation_or.Session.{
  ok, Session, Action, pure, raise, gets, lift, or_raise, ◌>>=◌, ◌>>◌, commit, generate_id,
  data_error, duplicate_sku, product_not_found, warehouse_not_found,
}
use inventory_reservation_or.Repositories.Catalog.{
  product_by_id, product_by_sku, add_product_unless, insert_product, warehouse_by_id,
  insert_warehouse,
}

-- A price as a body writes it: a number, and how many of its digits are decimal places.
pub record Price : Type 0 where
  pub digits : ℕ
  pub places : ℕ

abbrev pub power_of_ten : ℕ → ℕ
power_of_ten zero = 1
power_of_ten (suc n) = 10 * power_of_ten n

-- The cents that a Numeric(12, 2) keeps of it, rounded to the nearest, if twelve digits are enough.
abbrev pub to_cents : Price → ℕ
to_cents price = (200 * price.digits + power_of_ten price.places) / (2 * power_of_ten price.places)

abbrev pub numeric : Price → Option ℕ
numeric price = if ltb (to_cents price) 1000000000000 then some (to_cents price) else none

-- `ProductCreateRequest` of src/schemas/product.py
pub record ProductCreateRequest : Type 0 where
  pub sku : String
  pub name : String
  pub price : Price

-- The fast path for a friendly error message.
abbrev pub raise_if_taken : String → Option Product → Action (Unit {0})
raise_if_taken sku none = pure tt
raise_if_taken sku (some _) = raise (duplicate_sku sku)

unfoldable pub create_product : ProductCreateRequest → Action Product
unfolding product_by_sku generate_id insert_product commit
create_product payload = do
  raise_if_taken payload.sku (← gets (product_by_sku payload.sku))
  id ← lift generate_id
  price ← or_raise (numeric payload.price) data_error
  product ←
      insert_product (record { id = id; sku = payload.sku; name = payload.name; price = price })
  lift commit
  pure product

unfoldable pub get_product_or_404 : Uid → Action Product
unfolding product_by_id
get_product_or_404 product_id = do
  or_raise (← gets (product_by_id product_id)) (product_not_found (product_id ∷ []))

-- `WarehouseCreateRequest` of src/schemas/warehouse.py
pub record WarehouseCreateRequest : Type 0 where
  pub name : String
  pub location : String

unfoldable pub create_warehouse : WarehouseCreateRequest → Action Warehouse
unfolding generate_id insert_warehouse commit
create_warehouse payload = do
  id ← lift generate_id
  warehouse ←
      insert_warehouse (record { id = id; name = payload.name; location = payload.location })
  lift commit
  pure warehouse

unfoldable pub get_warehouse_or_404 : Uid → Action Warehouse
unfolding warehouse_by_id
get_warehouse_or_404 warehouse_id = do
  or_raise (← gets (warehouse_by_id warehouse_id)) (warehouse_not_found warehouse_id)

-- The nearest number of cents, and the higher of two that are equally near.
abbrev pub IsRounded : Price → ℕ → Type 0
IsRounded price cents =
    let unit = power_of_ten price.places in
    (cents * (2 * unit) ≤ 200 * price.digits + unit)
    × (200 * price.digits < cents * (2 * unit) + unit)

power_of_ten-positive : (n : ℕ) → 0 < power_of_ten n
power_of_ten-positive zero = omega arith
power_of_ten-positive (suc n) = let h = power_of_ten-positive n in omega arith

to_cents-IsRounded : (price : Price) → IsRounded price (to_cents price)
to_cents-IsRounded price =
    let unit = power_of_ten price.places in
    let positive = power_of_ten-positive price.places in
    let twice : 0 < 2 * unit = omega arith in
    let above = lt-div-mul-add {a = 200 * price.digits + unit} {b = 2 * unit} twice in
    (div-mul-le_self (200 * price.digits + unit) (2 * unit), omega arith)

abbrev IsReadBack : ProductCreateRequest → Product → Session → Type 0
IsReadBack payload product s =
    (product.sku ≡ payload.sku)
    × (product.name ≡ payload.name)
    × IsRounded payload.price product.price
    × ((get_product_or_404 product.id s).0 ≡ ok product)
    × (s.committed ≡ s.tables)

inserted-get :
    (payload : ProductCreateRequest) (id price : ℕ) (found : Option Product) (s : Session)
    (product : Product)
    → IsRounded payload.price price
    → let new : Product = record {
      id = id;
      sku = payload.sku;
      name = payload.name;
      price = price;
    } in
      let out = (add_product_unless new found >>= λ p. (lift commit >> pure p)) s in
      out.0 ≡ ok product → IsReadBack payload product out.1
unfolding commit get_product_or_404 product_by_id find
inserted-get payload id price (some taken) s product rounded e = cc
inserted-get payload id price none s product rounded e =
    let new : Product = record { id = id; sku = payload.sku; name = payload.name; price = price } in
    let same : new ≡ product = cc in
    subst (λ (p : Product). IsReadBack payload p (commit (add_product_unless new none s).1).1) same
      (refl, refl, rounded, rw (==_refl id) refl, refl)

-- A product that was created has the SKU and the name that were asked for, the price that was
-- asked for rounded to the nearest cent (and up between two), is read back by its id as it was
-- answered, and everything is committed.
pub create_product-get :
    (payload : ProductCreateRequest) (s : Session) (product : Product)
    → (create_product payload s).0 ≡ ok product
    → let s' = (create_product payload s).1 in
      (product.sku ≡ payload.sku)
      × (product.name ≡ payload.name)
      × IsRounded payload.price product.price
      × ((get_product_or_404 product.id s').0 ≡ ok product)
      × (s'.committed ≡ s'.tables)
unfolding create_product insert_product generate_id
create_product-get payload s product e = elim (Option-cases (product_by_sku payload.sku s)) [
  | inl free ↦ elim (Bool-cases (ltb (to_cents payload.price) 1000000000000)) [
    | inl fits ↦
        let e' = rw (free, fits) at e in
        rw (free, fits)
          (inserted-get payload (s.uuids s.drawn) (to_cents payload.price) _ (generate_id s).1
            product (to_cents-IsRounded payload.price) e')
    | inr large ↦ let e' = rw (free, large) at e in cc
  ]
  | inr (taken, found) ↦ let e' = rw found at e in cc
]
