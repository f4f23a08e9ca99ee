-- ===== src/Repositories/Logs.antt =====
-- src/repositories/{audit,low_stock_alert,outbox,dead_letter}_repository.py: the tables that are
-- only added to, but for the status of an outbox event.
use inventory_reservation_or.Prelude.{
  ℕ, String, Bool, true, false, Option, none, some, List, ◌∷◌, ◌==◌,
}
use inventory_reservation_or.Prelude.Int.{ℤ}
use inventory_reservation_or.Prelude.Lists.{take}
use inventory_reservation_or.Models.{
  Uid, AuditEventType, OutboxStatus, Reference, Payload, InventoryAuditLog, LowStockAlert,
  OutboxEvent, DeadLetterOrder,
}
use inventory_reservation_or.Session.{Session, St, generate_id, now}
use inventory_reservation_or.Table.{select, update_where}
use inventory_reservation_or.Table.Sort.{order_by, order_by_desc}

-- audit_repository.record
unfoldable pub record_audit : Uid → Uid → ℤ → AuditEventType → Reference → St InventoryAuditLog
unfolding generate_id now
record_audit product_id warehouse_id change event_type reference_id s =
    let (id, s₁) = generate_id s in
    let (t, s₂) = now s₁ in
    let entry : InventoryAuditLog = record {
      id = id;
      product_id = product_id;
      warehouse_id = warehouse_id;
      change = change;
      type = event_type;
      reference_id = reference_id;
      created_at = t;
    } in
    (entry, record s₂ { tables = record s₂.tables { audit_logs = entry ∷ s₂.tables.audit_logs } })

-- audit_repository.list_for_product
unfoldable pub list_audit_for_product : Uid → ℕ → Session → List InventoryAuditLog
list_audit_for_product product_id limit s = take limit (
    order_by_desc (λ r. r.created_at)
      (select (λ r. r.product_id == product_id) s.tables.audit_logs))

-- low_stock_alert_repository.create
unfoldable pub create_alert : Uid → Uid → ℕ → ℕ → St LowStockAlert
unfolding generate_id now
create_alert product_id warehouse_id quantity_at_alert threshold s =
    let (id, s₁) = generate_id s in
    let (t, s₂) = now s₁ in
    let alert : LowStockAlert = record {
      id = id;
      product_id = product_id;
      warehouse_id = warehouse_id;
      quantity_at_alert = quantity_at_alert;
      threshold = threshold;
      created_at = t;
    } in
    (alert, record s₂ { tables = record s₂.tables { alerts = alert ∷ s₂.tables.alerts } })

abbrev of_warehouse : Option Uid → LowStockAlert → Bool
of_warehouse none r = true
of_warehouse (some warehouse_id) r = r.warehouse_id == warehouse_id

-- low_stock_alert_repository.list_recent; SQL applies the WHERE clause before ORDER BY and LIMIT
unfoldable pub list_recent : Option Uid → ℕ → Session → List LowStockAlert
list_recent warehouse_id limit s =
    take limit
      (order_by_desc (λ r. r.created_at) (select (of_warehouse warehouse_id) s.tables.alerts))

-- outbox_repository.create
unfoldable pub create_event : String → Uid → String → Payload → St OutboxEvent
unfolding generate_id now
create_event aggregate_type aggregate_id event_type payload s =
    let (id, s₁) = generate_id s in
    let (t, s₂) = now s₁ in
    let event : OutboxEvent = record {
      id = id;
      aggregate_type = aggregate_type;
      aggregate_id = aggregate_id;
      event_type = event_type;
      payload = payload;
      status = OutboxStatus.pending;
      created_at = t;
      published_at = none;
    } in
    (event, record s₂ { tables = record s₂.tables { outbox = event ∷ s₂.tables.outbox } })

abbrev pub is_pending : OutboxEvent → Bool
is_pending e = elim e.status [ OutboxStatus.pending ↦ true | OutboxStatus.published ↦ false ]

-- outbox_repository.claim_pending_batch
unfoldable pub claim_pending_batch : ℕ → Session → List OutboxEvent
claim_pending_batch limit s =
    take limit (order_by (λ e. e.created_at) (select is_pending s.tables.outbox))

-- outbox_repository.mark_published
unfoldable pub mark_published : Uid → St (Unit {0})
unfolding now
mark_published event_id s =
    let (t, s₁) = now s in
    (
      tt,
      record s₁ {
        tables = record s₁.tables {
          outbox =
              update_where (λ e. e.id == event_id)
                (λ e. record e { status = OutboxStatus.published; published_at = some t })
                s₁.tables.outbox;
        };
      },
    )

-- dead_letter_repository.record
unfoldable pub record_dead_letter : Uid → String → ℕ → St DeadLetterOrder
unfolding generate_id
record_dead_letter order_id reason attempts s =
    let (id, s₁) = generate_id s in
    let entry : DeadLetterOrder = record {
      id = id;
      order_id = order_id;
      reason = reason;
      attempts = attempts;
    } in
    (
      entry,
      record s₁ { tables = record s₁.tables { dead_letters = entry ∷ s₁.tables.dead_letters } },
    )
