-- ===== src/Repositories/Order.antt =====
-- src/repositories/order_repository.py. A row lock is implied by running a transaction at a time.
use text.Mathlib.Text.{◌==◌ as str_eq}
use inventory_reservation_or.Prelude.{
  fit, ℕ, ◌-◌, ◌*◌, String, Bool, true, false, ◌&&◌, Option, none, some, List, ◌∷◌, ◌++◌, leb, ◌==◌,
  if◌then◌else◌,
}
use inventory_reservation_or.Prelude.Lists.{length, take, drop}
use inventory_reservation_or.Models.{Uid, Time, OrderStatus, Order, OrderItem}
use inventory_reservation_or.Session.{Session, St, Action, ok, err, integrity_error, data_error}
use inventory_reservation_or.Table.{find, select, update_where}
use inventory_reservation_or.Table.Sort.{order_by_desc}

abbrev pub set_orders : List Order → Session → Session
set_orders rows s = record s { tables = record s.tables { orders = rows } }

-- Also `get_by_id_for_update`, which locks the row besides.
unfoldable pub get_by_id : Uid → Session → Option Order
get_by_id order_id s = find (λ o. o.id == order_id) s.tables.orders

abbrev pub has_key : String → Order → Bool
has_key key o = elim o.idempotency_key [ none ↦ false | some k ↦ str_eq k key ]

unfoldable pub get_by_idempotency_key : String → Session → Option Order
get_by_idempotency_key key s = find (has_key key) s.tables.orders

-- The primary key `id` and the unique index on `idempotency_key`, where NULLs do not clash.
abbrev pub clashes : Order → Order → Bool
clashes order o =
    if o.id == order.id
    then true
    else elim order.idempotency_key [ none ↦ false | some key ↦ has_key key o ]

abbrev pub add_unless : Order → List OrderItem → Option Order → Action Order
add_unless order items (some _) s = (err integrity_error, s)
add_unless order items none s = (
  ok order,
  record s {
    tables = record s.tables {
      orders = order ∷ s.tables.orders;
      order_items = items ++ s.tables.order_items;
    };
  },
)

-- An order whose payment token the column, a String(32), takes so, or refuses.
abbrev pub add_fitting : Order → List OrderItem → Option String → Action Order
add_fitting order items none s = (err data_error, s)
add_fitting order items (some token) s =
    let row = record order { payment_token = token } in
    add_unless row items (find (clashes row) s.tables.orders) s

-- INSERT
unfoldable pub create : Order → List OrderItem → Action Order
create order items s = add_fitting order items (fit 32 order.payment_token) s

-- The ORM writes the status of the one row that the object stands for.
unfoldable pub update_status : Uid → OrderStatus → St (Unit {0})
update_status order_id status s = (
  tt,
  set_orders
      (update_where (λ o. o.id == order_id) (λ o. record o { status = status }) s.tables.orders) s,
)

-- UPDATE of the number of processing attempts
unfoldable pub update_attempts : Uid → ℕ → St (Unit {0})
update_attempts order_id attempts s = (
  tt,
  set_orders
      (update_where (λ o. o.id == order_id) (λ o. record o { processing_attempts = attempts })
        s.tables.orders)
      s,
)

-- The query parameters of `list_orders`: each filter applies if it is given.
pub record OrderFilter : Type 0 where
  pub status : Option OrderStatus
  pub created_after : Option Time
  pub created_before : Option Time
  pub user_id_filter : Option Uid

abbrev pub passes {ℓ} : {A : Type ℓ} → Option A → (A → Bool) → Bool
passes none test = true
passes (some a) test = test a

abbrev pub has_status : OrderStatus → OrderStatus → Bool
has_status OrderStatus.pending OrderStatus.pending = true
has_status OrderStatus.reserved OrderStatus.reserved = true
has_status OrderStatus.processing OrderStatus.processing = true
has_status OrderStatus.completed OrderStatus.completed = true
has_status OrderStatus.failed OrderStatus.failed = true
has_status OrderStatus.cancelled OrderStatus.cancelled = true
has_status OrderStatus.expired OrderStatus.expired = true
has_status _ _ = false

abbrev pub matches : OrderFilter → Order → Bool
matches f o =
    passes f.status (has_status o.status)
    && passes f.created_after (λ t. leb t o.created_at)
    && passes f.created_before (λ t. leb o.created_at t)
    && passes f.user_id_filter (λ u. o.created_by_user_id == u)

-- The page of orders and the total count. Pages count from 1: the API refuses a smaller number.
unfoldable pub list_orders : OrderFilter → ℕ → ℕ → Session → List Order × ℕ
list_orders f page limit s =
    let found = select (matches f) s.tables.orders in
    (take limit (drop ((page - 1) * limit) (order_by_desc (λ o. o.created_at) found)), length found)
