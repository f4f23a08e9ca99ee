-- ===== src/Models/Rows.antt =====
-- The rows of src/models/*.py. Identifiers are opaque and only compared, so they are numbers;
-- prices are whole cents (Numeric(12, 2)); times are numbers. The CHECK constraints hold the two
-- quantities and the threshold at zero or above, so they are natural numbers. The columns
-- `created_at` and `updated_at` are kept where a query sorts or filters by them.
use inventory_reservation_or.Prelude.{ℕ, String, Bool, Option, List}
use inventory_reservation_or.Prelude.Int.{ℤ}
use inventory_reservation_or.Models.Enums.{
  UserRole, OrderStatus, ReservationStatus, AuditEventType, IdempotencyStatus, OutboxStatus,
}

abbrev pub Uid : Type 0
Uid = ℕ

abbrev pub Time : Type 0
Time = ℕ

pub record Product : Type 0 where
  pub id : Uid
  pub sku : String
  pub name : String
  pub price : ℕ

pub record Warehouse : Type 0 where
  pub id : Uid
  pub name : String
  pub location : String

pub record User : Type 0 where
  pub id : Uid
  pub email : String
  pub hashed_password : String
  pub role : UserRole

pub record Inventory : Type 0 where
  pub id : Uid
  pub product_id : Uid
  pub warehouse_id : Uid
  pub available_quantity : ℕ
  pub reserved_quantity : ℕ
  pub low_stock_threshold : Option ℕ
  pub is_low_stock : Bool

pub record InventoryReservation : Type 0 where
  pub id : Uid
  pub order_id : Uid
  pub product_id : Uid
  pub warehouse_id : Uid
  pub quantity : ℕ
  pub status : ReservationStatus
  pub expires_at : Time
  pub released_at : Option Time

pub record Order : Type 0 where
  pub id : Uid
  pub status : OrderStatus
  pub total : ℕ
  pub created_by_user_id : Uid
  pub payment_token : String
  pub processing_attempts : ℕ
  pub idempotency_key : Option String
  pub created_at : Time

pub record OrderItem : Type 0 where
  pub id : Uid
  pub order_id : Uid
  pub product_id : Uid
  pub warehouse_id : Uid
  pub quantity : ℕ
  pub unit_price : ℕ

-- The free-form pointer of an audit row: the code writes an order's id or an adjustment's reason.
pub data Reference : Type 0 where
  to_order : Uid → Reference
  reason : String → Reference

pub record InventoryAuditLog : Type 0 where
  pub id : Uid
  pub product_id : Uid
  pub warehouse_id : Uid
  pub change : ℤ
  pub type : AuditEventType
  pub reference_id : Reference
  pub created_at : Time

pub record LowStockAlert : Type 0 where
  pub id : Uid
  pub product_id : Uid
  pub warehouse_id : Uid
  pub quantity_at_alert : ℕ
  pub threshold : ℕ
  pub created_at : Time

-- The two JSON payloads that the code writes to the outbox.
pub data Payload : Type 0 where
  order_payload : Uid → Payload
  alert_payload :
      (alert_id product_id warehouse_id : Uid) (quantity_at_alert threshold : ℕ) → Payload

pub record OutboxEvent : Type 0 where
  pub id : Uid
  pub aggregate_type : String
  pub aggregate_id : Uid
  pub event_type : String
  pub payload : Payload
  pub status : OutboxStatus
  pub created_at : Time
  pub published_at : Option Time

pub record DeadLetterOrder : Type 0 where
  pub id : Uid
  pub order_id : Uid
  pub reason : String
  pub attempts : ℕ

-- `OrderItemResponse` and `OrderResponse` of src/schemas/order.py: the body that the API returns
-- and that an idempotency record stores.
pub record OrderItemResponse : Type 0 where
  pub product_id : Uid
  pub quantity : ℕ
  pub unit_price : ℕ

pub record OrderResponse : Type 0 where
  pub id : Uid
  pub status : OrderStatus
  pub total : ℕ
  pub items : List OrderItemResponse
  pub created_at : Time

-- `OrderItemRequest` and `OrderCreateRequest` of src/schemas/order.py
pub record OrderItemRequest : Type 0 where
  pub product_id : Uid
  pub quantity : ℕ

pub record OrderCreateRequest : Type 0 where
  pub items : List OrderItemRequest
  pub payment_token : String

-- `InventoryAdjustmentRequest` of src/schemas/inventory.py
pub record InventoryAdjustmentRequest : Type 0 where
  pub product_id : Uid
  pub warehouse_id : Uid
  pub quantity : ℤ
  pub reason : String

pub record IdempotencyKey : Type 0 where
  pub key : String
  pub request_hash : String
  pub order_id : Option Uid
  pub status : IdempotencyStatus
  pub response_body : Option OrderResponse
