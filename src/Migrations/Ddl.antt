-- ===== src/Migrations/Ddl.antt =====
-- The calls of Alembic's `op` in src/migrations/versions as values, and the schema of a database.
-- Names that the database makes up (of primary and foreign keys) are left out, and `onupdate`,
-- which SQLAlchemy sees to itself.
use inventory_reservation_or.Prelude.{ℕ, String, Bool, Option, List, []}

pub data ColumnType : Type 0 where
  string : ℕ → ColumnType
  text : ColumnType
  integer : ColumnType
  numeric : ℕ → ℕ → ColumnType
  boolean : ColumnType
  date_time : ColumnType
  jsonb : ColumnType
  enum : List String → String → ColumnType

pub data Default : Type 0 where
  constant : String → Default
  current_time : Default

-- A foreign key is to the column `id` of the table that it names.
pub record Column : Type 0 where
  pub name : String
  pub column_type : ColumnType
  pub is_primary_key : Bool
  pub foreign_key : Option String
  pub is_nullable : Bool
  pub server_default : Option Default

pub data Condition : Type 0 where
  nonnegative : String → Condition
  null_or_nonnegative : String → Condition

pub data Constraint : Type 0 where
  unique : List String → String → Constraint
  check : Condition → String → Constraint

pub record TableSchema : Type 0 where
  pub name : String
  pub columns : List Column
  pub constraints : List Constraint

pub record Index : Type 0 where
  pub name : String
  pub table : String
  pub columns : List String
  pub is_unique : Bool

pub record Schema : Type 0 where
  pub tables : List TableSchema
  pub indexes : List Index
  pub enums : List String

pub data Operation : Type 0 where
  create_table : TableSchema → Operation
  create_index : Index → Operation
  drop_table : String → Operation
  add_column : String → Column → Operation
  drop_column : String → String → Operation
  create_check_constraint : String → String → Condition → Operation
  drop_constraint : String → String → Operation
  -- With `checkfirst`, so that a type that is not there is passed over.
  drop_enum : String → Operation

abbrev pub empty : Schema
empty = record { tables = []; indexes = []; enums = [] }
