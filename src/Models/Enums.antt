-- ===== src/Models/Enums.antt =====
-- src/models/enums.py
use inventory_reservation_or.Prelude.{Bool, true, false}

pub data UserRole : Type 0 where
  admin client : UserRole

pub data OrderStatus : Type 0 where
  pending reserved processing completed failed cancelled expired : OrderStatus

-- status in CANCELLABLE_ORDER_STATUSES
abbrev pub is_cancellable : OrderStatus → Bool
is_cancellable OrderStatus.pending = true
is_cancellable OrderStatus.reserved = true
is_cancellable _ = false

-- status in TERMINAL_ORDER_STATUSES
abbrev pub is_terminal : OrderStatus → Bool
is_terminal OrderStatus.completed = true
is_terminal OrderStatus.failed = true
is_terminal OrderStatus.cancelled = true
is_terminal OrderStatus.expired = true
is_terminal _ = false

-- The equality tests that the code makes on its enumerations.
abbrev pub is_reserved : OrderStatus → Bool
is_reserved OrderStatus.reserved = true
is_reserved _ = false

pub data ReservationStatus : Type 0 where
  active released consumed : ReservationStatus

abbrev pub is_active : ReservationStatus → Bool
is_active ReservationStatus.active = true
is_active _ = false

pub data AuditEventType : Type 0 where
  stock_added stock_removed inventory_reserved reservation_released : AuditEventType
  order_completed manual_adjustment : AuditEventType

pub data IdempotencyStatus : Type 0 where
  in_progress completed : IdempotencyStatus

pub data OutboxStatus : Type 0 where
  pending published : OutboxStatus

pub data PaymentResult : Type 0 where
  success failed : PaymentResult
