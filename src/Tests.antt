-- ===== src/Tests.antt =====
-- The theorems at work on the small database of Tests.Shop.
pub mod Shop
pub mod Access
pub mod Api
pub mod Flow
pub mod History
pub mod Migrated
use text.Mathlib.Text.{◌==◌ as str_eq}
use inventory_reservation_or.Prelude.{
  Bool, ℕ, String, ◌+◌, ◌*◌, ◌≡◌, refl, true, false, none, some, [], ◌∷◌, arith, if◌then◌else◌,
}
use inventory_reservation_or.Prelude.Int.{ℤ, pos, neg, ◌+ℤ◌}
use inventory_reservation_or.Models.{
  Uid, Product, Warehouse, User, UserRole, Inventory, InventoryReservation, ReservationStatus,
  Order, OrderStatus, OrderItem, OrderCreateRequest, InventoryAuditLog, AuditEventType, Reference,
  InventoryAdjustmentRequest, OrderResponse,
}
use inventory_reservation_or.Session.{Session, Tables}
use inventory_reservation_or.Session.{ok, commit, rolling_back, generate_id, now}
use inventory_reservation_or.Table.{find, select, update_where, rowcount}
use inventory_reservation_or.Table.Sort.{order_by_desc}
use inventory_reservation_or.Repositories.Inventory.{try_reserve}
use inventory_reservation_or.Repositories.Order
use inventory_reservation_or.Repositories.Reservation
use inventory_reservation_or.Repositories.Logs.{record_audit, create_event}
use inventory_reservation_or.Repositories.Catalog.{get_many_by_ids}
use inventory_reservation_or.Repositories.Idempotency.{get_for_update, try_claim, mark_completed}
use inventory_reservation_or.Services.Idempotency.{begin, join, complete}
use inventory_reservation_or.Services.Inventory.{
  reserve, check_low_stock_transition, flip_and_alert,
}
use inventory_reservation_or.Services.Orders.Create.{
  create_reservations, announce, store_order, reserve_in, reserve_line, reserve_lines,
  reserve_and_store, place_order, answer, create_order_impl, create_order,
}
use inventory_reservation_or.Services.Inventory.{release_reservation}
use inventory_reservation_or.Services.Orders.Cancel.{release_all, cancel_order}
use inventory_reservation_or.Services.Adjustments.{create_adjustment}
use inventory_reservation_or.Services.LowStock.{set_threshold}
use inventory_reservation_or.Workers.Processor.{
  RetryPolicy, start_processing, consume_all, complete_order, finish_processing, process_order,
}
use inventory_reservation_or.Workers.Relay.{Task, relay_once}
use inventory_reservation_or.Workers.Relay.Round.{RelayEffect, relay_once-RelayEffect}
use inventory_reservation_or.Session.{Error}
use inventory_reservation_or.Prelude.{Option}
use inventory_reservation_or.Workers.Cleanup.{expire_batch, expire_reservations}
use inventory_reservation_or.Session.{rollback}
use inventory_reservation_or.Session.Ensures.{Ensures}
use inventory_reservation_or.Repositories.Reservation.{list_active_for_order}
use inventory_reservation_or.Lifecycle.{
  create, adjust, relay, expire, Reach, here, next, IsInitial, Reach-IsValid,
}
use inventory_reservation_or.Lifecycle.Drain.{Drained, expire_reservations-Drained}
use inventory_reservation_or.Lifecycle.Resent.{create_order_replay}
use inventory_reservation_or.Stock.Moves.{Moved, try_reserve_moves, try_reserve-done}
use inventory_reservation_or.Stock.Alarm.{
  AreFlagsRight, reserve-AreFlagsRight, release_reservation-AreFlagsRight,
}
use inventory_reservation_or.Stock.Books.Loops.{Ended, release_active-Ended, consume_active-Ended}
use inventory_reservation_or.Stock.Books.Cancel.{CancelEffect, cancel_order_effect}
use inventory_reservation_or.Stock.Books.Process.{
  FinishEffect, Rescheduled, process_order_effect, process_order_duplicate,
  start_processing-reserved, finish_processing_effect,
}
use inventory_reservation_or.Stock.Books.Place.{CreateEffect, create_order_atomic}
use inventory_reservation_or.Stock.Books.Expire.{expire_batch-IsValid}
use inventory_reservation_or.Stock.Books.Adjust.{create_adjustment_effect}
use inventory_reservation_or.Stock.Books.Threshold.{set_threshold_effect}
use inventory_reservation_or.Stock.Books.Valid.{IsValid}
use text.Mathlib.TextPositions.{eq_refl}
use inventory_reservation_or.Repositories.Catalog.{
  user_by_email, insert_user, product_by_sku, insert_product,
}
use inventory_reservation_or.Services.Auth.{
  RegisterRequest, LoginRequest, register, login, register-login,
}
use inventory_reservation_or.Services.Catalog.{
  ProductCreateRequest, IsRounded, create_product, get_product_or_404, create_product-get,
}
use inventory_reservation_or.Tests.Shop.{
  lamp, depot, alice, row, placed, held_lamps, item, entry, tables, shop, shop-IsValid, two_lamps,
  one_hash, new_answer, two_lamps_ordered,
}

-- The history of the service, from a database that knows the product and the warehouse alone.
abbrev no_stock : Tables
no_stock = record tables {
  inventory = [];
  reservations = [];
  orders = [];
  order_items = [];
  audit_logs = [];
}

abbrev opening : Session
opening = record shop { tables = no_stock; committed = no_stock }

abbrev delivery : InventoryAdjustmentRequest
delivery = record { product_id = 1; warehouse_id = 2; quantity = pos 8; reason = "delivery" }

abbrev pub policy : RetryPolicy
policy = record { payment_max_attempts = 3; payment_retry_backoff_list = 5 ∷ 30 ∷ [] }

opening-IsInitial : IsInitial opening
opening-IsInitial = record {
  idle = refl;
  no_inventory = refl;
  no_reservations = refl;
  no_audit_logs = refl;
}

abbrev delivered : Session
delivered = rollback (create_adjustment delivery opening).1

abbrev ordered : Session
ordered = (create_order one_hash 30 two_lamps alice (some "k") delivered).1

-- The broker takes every task.
abbrev takes_all : Task → Option Error
takes_all task = none

abbrev relayed : Session
relayed = rollback (relay_once takes_all ordered).2

history : Reach opening (expire_batch relayed).1
history =
    next
      (next
        (next (next here (adjust delivery opening))
          (create one_hash 30 two_lamps alice (some "k") delivered))
        (relay takes_all ordered))
      (expire relayed)

Reach-IsValid_example : IsValid (expire_batch relayed).1
Reach-IsValid_example = Reach-IsValid opening-IsInitial history

create_order_atomic_example : CreateEffect shop (create_order one_hash 30 two_lamps alice none shop)
create_order_atomic_example = create_order_atomic one_hash 30 two_lamps alice none shop shop-IsValid

create_order_replay_example :
    let s' = (create_order one_hash 30 two_lamps alice (some "k") shop).1 in
    create_order one_hash 15 two_lamps alice (some "k") s' ≡ (ok new_answer, s')
create_order_replay_example =
    create_order_replay one_hash 30 two_lamps alice "k" shop new_answer two_lamps 15 alice
      shop-IsValid refl two_lamps_ordered refl

cancel_order_effect_example :
    let (answer, s') = cancel_order 7 alice shop in CancelEffect 7 shop answer s'
cancel_order_effect_example = cancel_order_effect 7 alice shop shop-IsValid

placed_found : Order.get_by_id 7 shop ≡ some placed
unfolding Order.get_by_id find
placed_found = refl

abbrev processing : Order
processing = record placed { status = OrderStatus.processing; processing_attempts = 1 }

process_order_effect_example :
    FinishEffect policy 7 processing 1 "tok"
      (start_processing 7 shop).1
      (process_order policy 7 shop)
process_order_effect_example =
    process_order_effect policy 7 placed shop shop-IsValid placed_found refl

start_processing-reserved_example :
    let (started_with, s') = start_processing 7 shop in
    (started_with ≡ some (1, "tok")) × Rescheduled 7 processing shop s'
start_processing-reserved_example =
    start_processing-reserved 7 placed shop shop-IsValid placed_found refl

finish_processing_effect_example :
    FinishEffect policy 7 placed 1 "fail" shop (finish_processing policy 7 (1, "fail") shop)
finish_processing_effect_example =
    finish_processing_effect policy 7 placed 1 shop shop-IsValid placed_found "fail"

-- The same order, when it was cancelled before its delivery.
abbrev cancelled_tables : Tables
cancelled_tables = record tables { orders = record placed { status = OrderStatus.cancelled } ∷ [] }

abbrev cancelled_shop : Session
cancelled_shop = record shop { tables = cancelled_tables; committed = cancelled_tables }

cancelled_shop-IsValid : IsValid cancelled_shop
cancelled_shop-IsValid = record { idle = refl; consistent = shop-IsValid.consistent }

cancelled_found :
    Order.get_by_id 7 cancelled_shop ≡ some (record placed { status = OrderStatus.cancelled })
unfolding Order.get_by_id find
cancelled_found = refl

process_order_duplicate_example : process_order policy 7 cancelled_shop ≡ (ok tt, cancelled_shop)
process_order_duplicate_example =
    process_order_duplicate policy 7 (record placed { status = OrderStatus.cancelled })
      cancelled_shop cancelled_shop-IsValid cancelled_found refl

expire_reservations-Drained_example : Drained 0 shop (expire_reservations 2 shop)
expire_reservations-Drained_example = expire_reservations-Drained 2 shop shop-IsValid (ground arith)

expire_batch-IsValid_example : IsValid (expire_batch shop).1
expire_batch-IsValid_example = expire_batch-IsValid shop shop-IsValid

create_adjustment_effect_example :
    Ensures (λ _. IsValid) (λ s. s.committed ≡ tables) (create_adjustment delivery shop)
create_adjustment_effect_example = create_adjustment_effect delivery shop shop-IsValid

set_threshold_effect_example :
    Ensures (λ _. IsValid) (λ s. s.committed ≡ tables) (set_threshold 1 2 (pos 4) shop)
set_threshold_effect_example = set_threshold_effect 1 2 (pos 4) shop shop-IsValid

try_reserve_moves_example :
    let (done, s') = try_reserve 1 2 4 shop in
    let moved : ℕ = if done then 4 else 0 in
    Moved moved 0 0 moved 1 2 (row ∷ []) s'.tables.inventory
try_reserve_moves_example = try_reserve_moves 1 2 4 shop shop-IsValid.consistent.unique_rows 1 2

try_reserve-done_example : (try_reserve 1 2 4 shop).0 ≡ true
unfolding find
try_reserve-done_example = try_reserve-done 1 2 4 shop shop-IsValid.consistent.unique_rows

flags_right : AreFlagsRight shop
flags_right = (refl, tt)

four_reserved : (reserve 1 2 4 20 shop).0 ≡ true
unfolding reserve try_reserve update_where rowcount record_audit generate_id now
    check_low_stock_transition flip_and_alert
four_reserved = refl

reserve-AreFlagsRight_example : AreFlagsRight (reserve 1 2 4 20 shop).1
reserve-AreFlagsRight_example =
    reserve-AreFlagsRight 1 2 4 20 shop (ground arith) flags_right four_reserved

release_reservation-AreFlagsRight_example : AreFlagsRight (release_reservation held_lamps 7 shop).1
release_reservation-AreFlagsRight_example =
    release_reservation-AreFlagsRight held_lamps 7 shop (ground arith) flags_right

release_active-Ended_example : Ended 7 [] shop (release_all 7 (list_active_for_order 7 shop) shop).1
release_active-Ended_example = release_active-Ended 7 shop shop-IsValid.consistent

consume_active-Ended_example : Ended 7 [] shop (consume_all 7 (list_active_for_order 7 shop) shop).1
consume_active-Ended_example = consume_active-Ended 7 shop shop-IsValid.consistent

abbrev chair : ProductCreateRequest
chair = record { sku = "CHAIR"; name = "Chair"; price = record { digits = 8995; places = 3 } }

abbrev new_chair : Product
new_chair = record { id = 100; sku = "CHAIR"; name = "Chair"; price = 900 }

chair_created : (create_product chair shop).0 ≡ ok new_chair
unfolding create_product product_by_sku find insert_product generate_id commit
chair_created = refl

create_product-get_example :
    let s' = (create_product chair shop).1 in
    (new_chair.sku ≡ "CHAIR")
    × (new_chair.name ≡ "Chair")
    × IsRounded chair.price 900
    × ((get_product_or_404 100 s').0 ≡ ok new_chair)
    × (s'.committed ≡ s'.tables)
create_product-get_example = create_product-get chair shop new_chair chair_created

relay_once-RelayEffect_example : RelayEffect ordered (relay_once takes_all ordered)
relay_once-RelayEffect_example = relay_once-RelayEffect takes_all ordered
