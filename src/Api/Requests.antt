-- ===== src/Api/Requests.antt =====
-- The checks that the schemas of src/schemas make of a request's body and query, with integers as
-- they arrive. Whether a text is an e-mail address, and its normal form, are the email-validator
-- package's to say.
use inventory_reservation_or.Prelude.{
  ℕ, String, Bool, true, false, not, ◌&&◌, Option, none, some, List, [], ◌∷◌, leb, ◌==◌,
  if◌then◌else◌, text_length,
}
use inventory_reservation_or.Prelude.Int.{ℤ, pos_part, is_negative, is_positive}
use inventory_reservation_or.Prelude.Lists.{length}
use inventory_reservation_or.Models.{
  Uid, OrderItemRequest, OrderCreateRequest, InventoryAdjustmentRequest,
}
use inventory_reservation_or.Repositories.Reservation.{is_among}
use inventory_reservation_or.Services.Auth.{RegisterRequest, LoginRequest}
use inventory_reservation_or.Services.Catalog.{ProductCreateRequest, WarehouseCreateRequest}

-- src/schemas/order.py
pub record OrderItemBody : Type 0 where
  pub product_id : Uid
  pub quantity : ℤ

pub record OrderBody : Type 0 where
  pub items : List OrderItemBody
  pub payment_token : String

-- Field(gt=0)
abbrev pub parse_item : OrderItemBody → Option OrderItemRequest
parse_item body =
    if is_positive body.quantity
    then some (record { product_id = body.product_id; quantity = pos_part body.quantity })
    else none

abbrev pub cons? :
    Option OrderItemRequest → Option (List OrderItemRequest) → Option (List OrderItemRequest)
cons? (some item) (some items) = some (item ∷ items)
cons? _ none = none
cons? none (some _) = none

unfoldable pub parse_items : List OrderItemBody → Option (List OrderItemRequest)
parse_items [] = some []
parse_items (body ∷ bodies) = cons? (parse_item body) (parse_items bodies)

-- set(product_ids)
unfoldable pub set_of : List Uid → List Uid
set_of [] = []
set_of (id ∷ ids) = let rest = set_of ids in if is_among ids id then rest else id ∷ rest

abbrev pub ids_in : List OrderItemRequest → List Uid
ids_in [] = []
ids_in (item ∷ items) = item.product_id ∷ ids_in items

-- `no_duplicate_products`
unfoldable pub no_duplicate_products : List OrderItemRequest → Bool
unfolding set_of
no_duplicate_products items = length (ids_in items) == length (set_of (ids_in items))

-- Field(min_length=1) and the validator, after the items are parsed
abbrev pub check_items : String → Option (List OrderItemRequest) → Option OrderCreateRequest
unfolding no_duplicate_products
check_items payment_token none = none
check_items payment_token (some []) = none
check_items payment_token (some (item ∷ items)) =
    if no_duplicate_products (item ∷ items)
    then some (record { items = item ∷ items; payment_token = payment_token })
    else none

unfoldable pub parse_order : OrderBody → Option OrderCreateRequest
unfolding parse_items no_duplicate_products
parse_order body = check_items body.payment_token (parse_items body.items)

-- min_length and max_length of a text
abbrev pub has_length : ℕ → ℕ → String → Bool
has_length least most text = leb least (text_length text) && leb (text_length text) most

abbrev pub given : {A : Type 0} → Bool → A → Option A
given true a = some a
given false a = none

-- src/schemas/inventory.py
unfoldable pub parse_adjustment : InventoryAdjustmentRequest → Option InventoryAdjustmentRequest
parse_adjustment body = given (has_length 1 255 body.reason) body

-- src/schemas/low_stock.py: Field(ge=0)
unfoldable pub parse_threshold : ℤ → Option ℤ
parse_threshold threshold = given (not (is_negative threshold)) threshold

-- src/schemas/auth.py
unfoldable pub parse_register : (String → Option String) → RegisterRequest → Option RegisterRequest
parse_register validate_email body = elim (validate_email body.email) [
  | none ↦ none
  | some email ↦ given (has_length 8 128 body.password) (record body { email = email })
]

unfoldable pub parse_login : (String → Option String) → LoginRequest → Option LoginRequest
parse_login validate_email body = elim (validate_email body.email) [
  | none ↦ none
  | some email ↦ some (record body { email = email })
]

-- src/schemas/product.py, with the price as its digits and how many of them are decimal places
pub record ProductBody : Type 0 where
  pub sku : String
  pub name : String
  pub price_digits : ℤ
  pub price_places : ℕ

unfoldable pub parse_product : ProductBody → Option ProductCreateRequest
parse_product body =
    given (has_length 1 64 body.sku && has_length 1 255 body.name && is_positive body.price_digits)
      (record {
        sku = body.sku;
        name = body.name;
        price = record { digits = pos_part body.price_digits; places = body.price_places };
      })

-- src/schemas/warehouse.py
unfoldable pub parse_warehouse : WarehouseCreateRequest → Option WarehouseCreateRequest
parse_warehouse body = given (has_length 1 255 body.name && has_length 1 255 body.location) body

-- Query(ge=1) and Query(ge=1, le=100) of src/api/orders.py
unfoldable pub is_page : ℕ → ℕ → Bool
is_page page limit = leb 1 page && leb 1 limit && leb limit 100
