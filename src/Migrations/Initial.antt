-- ===== src/Migrations/Initial.antt =====
-- src/migrations/versions/0001_initial_schema.py: the operations on each table, in the order of
-- the script.
use inventory_reservation_or.Prelude.{true, List, [], ◌∷◌, ◌++◌, map}
use inventory_reservation_or.Migrations.Ddl.{ColumnType, Default, Condition, Constraint, Operation}
use inventory_reservation_or.Migrations.Columns.{
  id_column, required, optional, defaulted, reference, created_at, updated_at, index_on,
  unique_index_on,
}

abbrev create_users : List Operation
create_users =
    Operation.create_table (record {
      name = "users";
      columns =
          id_column
          ∷ required "email" (ColumnType.string 255)
          ∷ required "hashed_password" (ColumnType.string 255)
          ∷ required "role" (ColumnType.enum ("ADMIN" ∷ "CLIENT" ∷ []) "user_role")
          ∷ created_at
          ∷ [];
      constraints = [];
    })
    ∷ unique_index_on "ix_users_email" "users" "email"
    ∷ []

abbrev create_products : List Operation
create_products =
    Operation.create_table (record {
      name = "products";
      columns =
          id_column
          ∷ required "sku" (ColumnType.string 64)
          ∷ required "name" (ColumnType.string 255)
          ∷ required "price" (ColumnType.numeric 12 2)
          ∷ created_at
          ∷ updated_at
          ∷ [];
      constraints = [];
    })
    ∷ unique_index_on "ix_products_sku" "products" "sku"
    ∷ []

abbrev create_warehouses : List Operation
create_warehouses =
    Operation.create_table (record {
      name = "warehouses";
      columns =
          id_column
          ∷ required "name" (ColumnType.string 255)
          ∷ required "location" (ColumnType.string 255)
          ∷ created_at
          ∷ [];
      constraints = [];
    })
    ∷ []

abbrev create_inventory : List Operation
create_inventory =
    Operation.create_table (record {
      name = "inventory";
      columns =
          id_column
          ∷ reference "product_id" "products"
          ∷ reference "warehouse_id" "warehouses"
          ∷ defaulted "available_quantity" ColumnType.integer (Default.constant "0")
          ∷ defaulted "reserved_quantity" ColumnType.integer (Default.constant "0")
          ∷ updated_at
          ∷ [];
      constraints =
          Constraint.unique ("product_id" ∷ "warehouse_id" ∷ []) "uq_inventory_product_warehouse"
          ∷ Constraint.check (Condition.nonnegative "available_quantity")
              "ck_inventory_available_nonnegative"
          ∷ Constraint.check (Condition.nonnegative "reserved_quantity")
              "ck_inventory_reserved_nonnegative"
          ∷ [];
    })
    ∷ index_on "ix_inventory_product_id" "inventory" "product_id"
    ∷ index_on "ix_inventory_warehouse_id" "inventory" "warehouse_id"
    ∷ []

abbrev create_orders : List Operation
create_orders =
    Operation.create_table (record {
      name = "orders";
      columns =
          id_column
          ∷ required "status" (
              ColumnType.enum
                ("PENDING" ∷ "RESERVED" ∷ "PROCESSING" ∷ "COMPLETED" ∷ "FAILED" ∷ "CANCELLED"
                  ∷ "EXPIRED" ∷ [])
                "order_status")
          ∷ required "total" (ColumnType.numeric 12 2)
          ∷ reference "created_by_user_id" "users"
          ∷ defaulted "payment_token" (ColumnType.string 32) (Default.constant "success")
          ∷ defaulted "processing_attempts" ColumnType.integer (Default.constant "0")
          ∷ optional "idempotency_key" (ColumnType.string 255)
          ∷ created_at
          ∷ updated_at
          ∷ [];
      constraints = [];
    })
    ∷ index_on "ix_orders_status" "orders" "status"
    ∷ index_on "ix_orders_created_at" "orders" "created_at"
    ∷ index_on "ix_orders_created_by_user_id" "orders" "created_by_user_id"
    ∷ unique_index_on "ix_orders_idempotency_key" "orders" "idempotency_key"
    ∷ []

abbrev create_order_items : List Operation
create_order_items =
    Operation.create_table (record {
      name = "order_items";
      columns =
          id_column
          ∷ reference "order_id" "orders"
          ∷ reference "product_id" "products"
          ∷ reference "warehouse_id" "warehouses"
          ∷ required "quantity" ColumnType.integer
          ∷ required "unit_price" (ColumnType.numeric 12 2)
          ∷ [];
      constraints = [];
    })
    ∷ index_on "ix_order_items_order_id" "order_items" "order_id"
    ∷ index_on "ix_order_items_product_id" "order_items" "product_id"
    ∷ []

abbrev create_inventory_reservations : List Operation
create_inventory_reservations =
    Operation.create_table (record {
      name = "inventory_reservations";
      columns =
          id_column
          ∷ reference "order_id" "orders"
          ∷ reference "product_id" "products"
          ∷ reference "warehouse_id" "warehouses"
          ∷ required "quantity" ColumnType.integer
          ∷ defaulted "status"
              (ColumnType.enum ("ACTIVE" ∷ "RELEASED" ∷ "CONSUMED" ∷ []) "reservation_status")
              (Default.constant "ACTIVE")
          ∷ required "expires_at" ColumnType.date_time
          ∷ created_at
          ∷ optional "released_at" ColumnType.date_time
          ∷ [];
      constraints = [];
    })
    ∷ index_on "ix_inventory_reservations_order_id" "inventory_reservations" "order_id"
    ∷ index_on "ix_inventory_reservations_status" "inventory_reservations" "status"
    ∷ index_on "ix_inventory_reservations_expires_at" "inventory_reservations" "expires_at"
    ∷ []

abbrev create_inventory_audit_logs : List Operation
create_inventory_audit_logs =
    Operation.create_table (record {
      name = "inventory_audit_logs";
      columns =
          id_column
          ∷ reference "product_id" "products"
          ∷ reference "warehouse_id" "warehouses"
          ∷ required "change" ColumnType.integer
          ∷ required "type" (
              ColumnType.enum
                ("STOCK_ADDED" ∷ "STOCK_REMOVED" ∷ "INVENTORY_RESERVED" ∷ "RESERVATION_RELEASED"
                  ∷ "ORDER_COMPLETED" ∷ "MANUAL_ADJUSTMENT" ∷ [])
                "audit_event_type")
          ∷ required "reference_id" (ColumnType.string 64)
          ∷ created_at
          ∷ [];
      constraints = [];
    })
    ∷ index_on "ix_inventory_audit_logs_product_id" "inventory_audit_logs" "product_id"
    ∷ index_on "ix_inventory_audit_logs_reference_id" "inventory_audit_logs" "reference_id"
    ∷ index_on "ix_inventory_audit_logs_created_at" "inventory_audit_logs" "created_at"
    ∷ []

abbrev create_idempotency_keys : List Operation
create_idempotency_keys =
    Operation.create_table (record {
      name = "idempotency_keys";
      columns =
          record (required "key" (ColumnType.string 255)) { is_primary_key = true }
          ∷ required "request_hash" (ColumnType.string 64)
          ∷ optional "order_id" (ColumnType.string 64)
          ∷ defaulted "status"
              (ColumnType.enum ("IN_PROGRESS" ∷ "COMPLETED" ∷ []) "idempotency_status")
              (Default.constant "IN_PROGRESS")
          ∷ optional "response_body" ColumnType.jsonb
          ∷ created_at
          ∷ [];
      constraints = [];
    })
    ∷ []

abbrev create_outbox_events : List Operation
create_outbox_events =
    Operation.create_table (record {
      name = "outbox_events";
      columns =
          id_column
          ∷ required "aggregate_type" (ColumnType.string 32)
          ∷ required "aggregate_id" (ColumnType.string 64)
          ∷ required "event_type" (ColumnType.string 64)
          ∷ required "payload" ColumnType.jsonb
          ∷ defaulted "status" (ColumnType.enum ("PENDING" ∷ "PUBLISHED" ∷ []) "outbox_status")
              (Default.constant "PENDING")
          ∷ created_at
          ∷ optional "published_at" ColumnType.date_time
          ∷ [];
      constraints = [];
    })
    ∷ index_on "ix_outbox_events_aggregate_id" "outbox_events" "aggregate_id"
    ∷ index_on "ix_outbox_events_status" "outbox_events" "status"
    ∷ []

abbrev create_dead_letter_orders : List Operation
create_dead_letter_orders =
    Operation.create_table (record {
      name = "dead_letter_orders";
      columns =
          id_column
          ∷ reference "order_id" "orders"
          ∷ required "reason" ColumnType.text
          ∷ required "attempts" ColumnType.integer
          ∷ created_at
          ∷ [];
      constraints = [];
    })
    ∷ index_on "ix_dead_letter_orders_order_id" "dead_letter_orders" "order_id"
    ∷ []

unfoldable pub upgrade : List Operation
upgrade =
    create_users ++ create_products ++ create_warehouses ++ create_inventory ++ create_orders
    ++ create_order_items ++ create_inventory_reservations ++ create_inventory_audit_logs
    ++ create_idempotency_keys ++ create_outbox_events ++ create_dead_letter_orders

-- The loop over the types' names
abbrev drop_enums : List Operation
drop_enums = map Operation.drop_enum (
    "order_status" ∷ "reservation_status" ∷ "audit_event_type" ∷ "idempotency_status"
    ∷ "outbox_status" ∷ "user_role" ∷ [])

unfoldable pub downgrade : List Operation
downgrade =
    map Operation.drop_table (
      "dead_letter_orders" ∷ "outbox_events" ∷ "idempotency_keys" ∷ "inventory_audit_logs"
      ∷ "inventory_reservations" ∷ "order_items" ∷ "orders" ∷ "inventory" ∷ "warehouses"
      ∷ "products" ∷ "users" ∷ [])
    ++ drop_enums
