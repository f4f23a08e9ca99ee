-- ===== src/Session.antt =====
-- The database and a SQLAlchemy session over it (src/database.py): the tables as the open
-- transaction sees them, the tables as last committed, and what comes from outside: the values
-- that `uuid4` and the clock are going to return. A method is an action on the session; one that
-- cannot raise is a `St`, one that may raise an `Action`, whose state comes back after a raise too.
pub mod Ensures
pub mod Raises
use inventory_reservation_or.Prelude.{ℕ, suc, String, Bool, true, false, Option, none, some, List}
use inventory_reservation_or.Models.{
  Uid, Time, OrderStatus, Product, Warehouse, User, Inventory, InventoryReservation, Order,
  OrderItem, InventoryAuditLog, LowStockAlert, OutboxEvent, DeadLetterOrder, IdempotencyKey,
}

pub record Tables : Type 0 where
  pub products : List Product
  pub warehouses : List Warehouse
  pub users : List User
  pub inventory : List Inventory
  pub reservations : List InventoryReservation
  pub orders : List Order
  pub order_items : List OrderItem
  pub audit_logs : List InventoryAuditLog
  pub alerts : List LowStockAlert
  pub outbox : List OutboxEvent
  pub dead_letters : List DeadLetterOrder
  pub idempotency_keys : List IdempotencyKey

pub record Session : Type 0 where
  pub tables : Tables
  pub committed : Tables
  pub uuids : ℕ → Uid
  pub drawn : ℕ
  pub clock : ℕ → Time
  pub ticks : ℕ

-- src/core/exceptions.py, with the details that the code puts in; behind them the exceptions of
-- the libraries and of the worker that reach a caller.
pub data Error : Type 0 where
  invalid_request : String → Error
  unauthorized : String → Error
  forbidden : Error
  product_not_found : List Uid → Error
  warehouse_not_found : Uid → Error
  order_not_found : Uid → Error
  insufficient_inventory : (requested available : ℕ) → Error
  duplicate_sku : String → Error
  order_cannot_be_cancelled : Uid → OrderStatus → Error
  idempotency_conflict : String → Error
  integrity_error : Error
  data_error : Error
  validation_error : Error
  index_error : Error
  key_error : Error
  retryable_payment : (countdown : ℕ) → Error

pub data Result {ℓ} (A : Type ℓ) : Type ℓ where
  ok : A → Result A
  err : Error → Result A

abbrev pub St : Type 0 → Type 0
St A = Session → A × Session

abbrev pub Action : Type 0 → Type 0
Action A = Session → Result A × Session

module _ {A : Type 0} where
  abbrev pub pure : A → Action A
  pure a s = (ok a, s)

  abbrev pub raise : Error → Action A
  raise e s = (err e, s)

  abbrev pub gets : (Session → A) → Action A
  gets f s = (ok (f s), s)

  abbrev pub lift : St A → Action A
  lift m s = let (a, s') = m s in (ok a, s')

  abbrev pub or_raise : Option A → Error → Action A
  or_raise none e s = (err e, s)
  or_raise (some a) e s = (ok a, s)

abbrev pub raise_if : Bool → Error → Action (Unit {0})
raise_if true e s = (err e, s)
raise_if false e s = (ok tt, s)

infixl 5 ◌>>=◌ ◌>>◌
abbrev pub ◌>>=◌ : {A B : Type 0} → Action A → (A → Action B) → Action B
◌>>=◌ m f s = let (r, s') = m s in elim r [ ok a ↦ f a s' | err e ↦ (err e, s') ]

abbrev pub ◌>>◌ : {A B : Type 0} → Action A → Action B → Action B
m >> k = m >>= λ _. k

-- db.commit()
unfoldable pub commit : St (Unit {0})
commit s = (tt, record s { committed = s.tables })

-- db.rollback(), and the end of a session with an open transaction
unfoldable pub rollback : Session → Session
rollback s = record s { tables = s.committed }

-- try: ... except Exception: db.rollback(); raise
unfoldable pub rolling_back : {A : Type 0} → Result A × Session → Result A × Session
unfolding rollback
rolling_back (ok a, s) = (ok a, s)
rolling_back (err e, s) = (err e, rollback s)

-- uuid.uuid4(), of src/core/ids.py
unfoldable pub generate_id : St Uid
generate_id s = (s.uuids s.drawn, record s { drawn = suc s.drawn })

-- datetime.now(timezone.utc)
unfoldable pub now : St Time
now s = (s.clock s.ticks, record s { ticks = suc s.ticks })
