-- ===== src/Migrations/LowStock.antt =====
-- src/migrations/versions/0002_low_stock_alerts.py.
use inventory_reservation_or.Prelude.{List, [], ◌∷◌}
use inventory_reservation_or.Migrations.Ddl.{ColumnType, Default, Condition, Operation}
use inventory_reservation_or.Migrations.Columns.{
  id_column, required, optional, defaulted, reference, created_at, index_on,
}

abbrev create_low_stock_alerts : List Operation
create_low_stock_alerts =
    Operation.create_table (record {
      name = "low_stock_alerts";
      columns =
          id_column
          ∷ reference "product_id" "products"
          ∷ reference "warehouse_id" "warehouses"
          ∷ required "quantity_at_alert" ColumnType.integer
          ∷ required "threshold" ColumnType.integer
          ∷ created_at
          ∷ [];
      constraints = [];
    })
    ∷ index_on "ix_low_stock_alerts_product_id" "low_stock_alerts" "product_id"
    ∷ index_on "ix_low_stock_alerts_warehouse_id" "low_stock_alerts" "warehouse_id"
    ∷ index_on "ix_low_stock_alerts_created_at" "low_stock_alerts" "created_at"
    ∷ []

unfoldable pub upgrade : List Operation
upgrade =
    Operation.add_column "inventory" (optional "low_stock_threshold" ColumnType.integer)
    ∷ Operation.add_column "inventory"
        (defaulted "is_low_stock" ColumnType.boolean (Default.constant "false"))
    ∷ Operation.create_check_constraint "ck_inventory_low_stock_threshold_nonnegative" "inventory"
        (Condition.null_or_nonnegative "low_stock_threshold")
    ∷ create_low_stock_alerts

unfoldable pub downgrade : List Operation
downgrade =
    Operation.drop_table "low_stock_alerts"
    ∷ Operation.drop_constraint "ck_inventory_low_stock_threshold_nonnegative" "inventory"
    ∷ Operation.drop_column "inventory" "is_low_stock"
    ∷ Operation.drop_column "inventory" "low_stock_threshold"
    ∷ []
