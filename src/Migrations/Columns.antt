-- ===== src/Migrations/Columns.antt =====
-- Columns and indexes as the scripts in src/migrations/versions declare them.
use inventory_reservation_or.Prelude.{String, true, false, none, some, [], ◌∷◌}
use inventory_reservation_or.Migrations.Ddl.{ColumnType, Default, Column, Operation}

abbrev pub required : String → ColumnType → Column
required name column_type = record {
  name = name;
  column_type = column_type;
  is_primary_key = false;
  foreign_key = none;
  is_nullable = false;
  server_default = none;
}

abbrev pub id_column : Column
id_column = record (required "id" (ColumnType.string 64)) { is_primary_key = true }

abbrev pub optional : String → ColumnType → Column
optional name column_type = record (required name column_type) { is_nullable = true }

abbrev pub defaulted : String → ColumnType → Default → Column
defaulted name column_type value = record (required name column_type) {
  server_default = some value;
}

-- `sa.Column(name, sa.String(64), sa.ForeignKey("<table>.id"), nullable=False)`
abbrev pub reference : String → String → Column
reference name table = record (required name (ColumnType.string 64)) { foreign_key = some table }

abbrev pub created_at : Column
created_at = defaulted "created_at" ColumnType.date_time Default.current_time

abbrev pub updated_at : Column
updated_at = defaulted "updated_at" ColumnType.date_time Default.current_time

abbrev pub index_on : String → String → String → Operation
index_on name table column =
    Operation.create_index
      (record { name = name; table = table; columns = column ∷ []; is_unique = false })

abbrev pub unique_index_on : String → String → String → Operation
unique_index_on name table column =
    Operation.create_index
      (record { name = name; table = table; columns = column ∷ []; is_unique = true })
