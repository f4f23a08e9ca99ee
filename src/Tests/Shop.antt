-- ===== src/Tests/Shop.antt =====
-- A small database: eight units of a product came to a warehouse, and an order of three of them is
-- waiting for its payment.
use inventory_reservation_or.Prelude.{
  String, ◌+◌, ◌*◌, ◌≡◌, refl, false, none, some, [], ◌∷◌, arith,
}
use inventory_reservation_or.Prelude.Int.{ℤ, pos, neg, ◌+ℤ◌}
use inventory_reservation_or.Models.{
  Uid, Product, Warehouse, User, UserRole, Inventory, InventoryReservation, ReservationStatus,
  Order, OrderStatus, OrderItem, OrderCreateRequest, InventoryAuditLog, AuditEventType, Reference,
  OrderResponse,
}
use inventory_reservation_or.Session.{Session, Tables}
use inventory_reservation_or.Session.{ok, commit, rolling_back, generate_id, now}
use inventory_reservation_or.Table.{find, select, update_where, rowcount}
use inventory_reservation_or.Table.Sort.{order_by_desc}
use inventory_reservation_or.Repositories.Inventory.{find_best_warehouse, try_reserve}
use inventory_reservation_or.Repositories.Order
use inventory_reservation_or.Repositories.Reservation
use inventory_reservation_or.Repositories.Logs.{record_audit, create_event}
use inventory_reservation_or.Repositories.Catalog.{get_many_by_ids}
use inventory_reservation_or.Repositories.Idempotency.{get_for_update, try_claim, mark_completed}
use inventory_reservation_or.Services.Idempotency.{begin, join, complete}
use inventory_reservation_or.Services.Inventory.{
  reserve, check_low_stock_transition, flip_and_alert,
}
use inventory_reservation_or.Services.Orders.Create.{
  create_reservations, announce, store_order, reserve_in, reserve_line, reserve_lines,
  reserve_and_store, place_order, answer, create_order_impl, create_order,
}
use inventory_reservation_or.Repositories.Reservation.{list_active_for_order}
use inventory_reservation_or.Stock.Books.Valid.{IsValid}

abbrev pub lamp : Product
lamp = record { id = 1; sku = "LAMP"; name = "Lamp"; price = 1250 }

abbrev pub depot : Warehouse
depot = record { id = 2; name = "Depot"; location = "Harbour" }

abbrev pub alice : User
alice = record { id = 3; email = "a@x"; hashed_password = "h"; role = UserRole.client }

abbrev pub row : Inventory
row = record {
  id = 4;
  product_id = 1;
  warehouse_id = 2;
  available_quantity = 5;
  reserved_quantity = 3;
  low_stock_threshold = some 2;
  is_low_stock = false;
}

abbrev pub placed : Order
placed = record {
  id = 7;
  status = OrderStatus.reserved;
  total = 3750;
  created_by_user_id = 3;
  payment_token = "tok";
  processing_attempts = 0;
  idempotency_key = none;
  created_at = 2;
}

abbrev pub held_lamps : InventoryReservation
held_lamps = record {
  id = 8;
  order_id = 7;
  product_id = 1;
  warehouse_id = 2;
  quantity = 3;
  status = ReservationStatus.active;
  expires_at = 10;
  released_at = none;
}

abbrev pub item : OrderItem
item = record {
  id = 9;
  order_id = 7;
  product_id = 1;
  warehouse_id = 2;
  quantity = 3;
  unit_price = 1250;
}

abbrev pub entry : Uid → ℤ → AuditEventType → Reference → InventoryAuditLog
entry id change type reference = record {
  id = id;
  product_id = 1;
  warehouse_id = 2;
  change = change;
  type = type;
  reference_id = reference;
  created_at = 1;
}

abbrev pub tables : Tables
tables = record {
  products = lamp ∷ [];
  warehouses = depot ∷ [];
  users = alice ∷ [];
  inventory = row ∷ [];
  reservations = held_lamps ∷ [];
  orders = placed ∷ [];
  order_items = item ∷ [];
  audit_logs =
      entry 11 (neg 3) AuditEventType.inventory_reserved (Reference.to_order 7)
      ∷ entry 10 (pos 8) AuditEventType.stock_added (Reference.reason "delivery")
      ∷ [];
  alerts = [];
  outbox = [];
  dead_letters = [];
  idempotency_keys = [];
}

-- New ids count up from 100, and the clock goes up by five.
abbrev pub shop : Session
shop = record {
  tables = tables;
  committed = tables;
  uuids = λ n. 100 + n;
  drawn = 0;
  clock = λ n. n * 5;
  ticks = 3;
}

pub shop-IsValid : IsValid shop
unfolding find ◌+ℤ◌
shop-IsValid = record {
  idle = refl;
  consistent = record {
    unique_rows = (refl, tt);
    unique_ids = (refl, tt);
    balance = λ p w. ground arith;
    explained = λ p w. ground arith;
  };
}

abbrev pub two_lamps : OrderCreateRequest
two_lamps = record { items = record { product_id = 1; quantity = 2 } ∷ []; payment_token = "tok" }

abbrev pub one_hash : OrderCreateRequest → String
one_hash request = request.payment_token

abbrev pub new_answer : OrderResponse
new_answer = record {
  id = 100;
  status = OrderStatus.reserved;
  total = 2500;
  items = record { product_id = 1; quantity = 2; unit_price = 1250 } ∷ [];
  created_at = 25;
}

-- Two lamps are ordered with a key.
pub two_lamps_ordered : (create_order one_hash 30 two_lamps alice (some "k") shop).0 ≡ ok new_answer
unfolding create_order create_order_impl answer begin try_claim get_for_update join place_order
    reserve_and_store reserve_lines reserve_line reserve_in reserve try_reserve
    check_low_stock_transition store_order create_reservations announce commit rolling_back
    generate_id now find select find_best_warehouse get_many_by_ids update_where rowcount
    record_audit order_by_desc Order.create Reservation.create create_event complete mark_completed
    flip_and_alert
two_lamps_ordered = refl
