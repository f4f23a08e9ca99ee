-- ===== src/Migrations/Apply.antt =====
-- What an operation of the scripts in src/migrations/versions makes of the tables, indexes and
-- enumeration types of the database, or `none` where PostgreSQL refuses it.
use package.text.Mathlib.Text.{◌==◌ as str_eq}
use inventory_reservation_or.Prelude.{
  String, Bool, true, false, not, ◌&&◌, ◌||◌, Option, none, some, List, [], ◌∷◌, ◌++◌, map,
  if◌then◌else◌,
}
use inventory_reservation_or.Table.{select, update_where}
use inventory_reservation_or.Migrations.Ddl.{
  ColumnType, Column, Condition, Constraint, TableSchema, Index, Schema, Operation,
}

abbrev any : {A : Type 0} → (A → Bool) → List A → Bool
any test [] = false
any test (x ∷ xs) = test x || any test xs

abbrev all : {A : Type 0} → (A → Bool) → List A → Bool
all test [] = true
all test (x ∷ xs) = test x && all test xs

abbrev among : String → List String → Bool
among name names = any (str_eq name) names

abbrev distinct : List String → Bool
distinct [] = true
distinct (name ∷ names) = not (among name names) && distinct names

abbrev column_names : List Column → List String
column_names columns = map (λ (c : Column). c.name) columns

abbrev enum_of : ColumnType → List String
enum_of (ColumnType.enum labels name) = name ∷ []
enum_of _ = []

abbrev enums_of : List Column → List String
enums_of [] = []
enums_of (c ∷ columns) = enum_of c.column_type ++ enums_of columns

abbrev refers : String → Column → Bool
refers table c = elim c.foreign_key [ none ↦ false | some name ↦ str_eq name table ]

abbrev constraint_name : Constraint → String
constraint_name (Constraint.unique columns name) = name
constraint_name (Constraint.check condition name) = name

abbrev constraint_columns : Constraint → List String
constraint_columns (Constraint.unique columns name) = columns
constraint_columns (Constraint.check (Condition.nonnegative column) name) = column ∷ []
constraint_columns (Constraint.check (Condition.null_or_nonnegative column) name) = column ∷ []

abbrev constraint_names : List Constraint → List String
constraint_names constraints = map constraint_name constraints

-- A unique constraint is kept by an index of its name.
abbrev key_names : List Constraint → List String
key_names [] = []
key_names (Constraint.unique columns name ∷ rest) = name ∷ key_names rest
key_names (Constraint.check condition name ∷ rest) = key_names rest

abbrev is_named : String → TableSchema → Bool
is_named name t = str_eq t.name name

abbrev has_table : String → Schema → Bool
has_table name s = any (is_named name) s.tables

-- Tables and indexes share their names.
abbrev is_taken : String → Schema → Bool
is_taken name s =
    has_table name s
    || any (λ (i : Index). str_eq i.name name) s.indexes
    || any (λ (t : TableSchema). among name (key_names t.constraints)) s.tables

abbrev are_columns : List String → List Column → Bool
are_columns names columns = all (λ name. among name (column_names columns)) names

-- The constraints name columns of the table, and no name stands twice.
abbrev is_well_formed : TableSchema → Bool
is_well_formed t =
    distinct (column_names t.columns)
    && distinct (t.name ∷ constraint_names t.constraints)
    && all (λ c. are_columns (constraint_columns c) t.columns) t.constraints

abbrev is_reference_known : String → Schema → Column → Bool
is_reference_known name s c = elim c.foreign_key [
  | none ↦ true
  | some table ↦ str_eq table name || has_table table s
]

-- A table's own enumeration types are created with it, and must be new.
abbrev can_create : TableSchema → Schema → Bool
can_create t s =
    is_well_formed t
    && all (λ name. not (is_taken name s)) (t.name ∷ key_names t.constraints)
    && all (is_reference_known t.name s) t.columns
    && distinct (enums_of t.columns)
    && all (λ name. not (among name s.enums)) (enums_of t.columns)

abbrev has_table_where : String → (TableSchema → Bool) → Schema → Bool
has_table_where name test s = any (λ t. is_named name t && test t) s.tables

abbrev can_index : Index → Schema → Bool
can_index i s =
    not (is_taken i.name s) && has_table_where i.table (λ t. are_columns i.columns t.columns) s

-- No other table has a foreign key to it.
abbrev can_drop : String → Schema → Bool
can_drop name s =
    has_table name s && all (λ t. is_named name t || not (any (refers name) t.columns)) s.tables

abbrev changed : String → (TableSchema → TableSchema) → Schema → Schema
changed name f s = record s { tables = update_where (is_named name) f s.tables }

abbrev provided : Bool → Schema → Option Schema
provided test s = if test then some s else none

abbrev without_column : String → TableSchema → TableSchema
without_column column t = record t {
  columns = select (λ c. not (str_eq c.name column)) t.columns;
  constraints = select (λ c. not (among column (constraint_columns c))) t.constraints;
}

abbrev with_constraint : Constraint → TableSchema → TableSchema
with_constraint c t = record t { constraints = t.constraints ++ c ∷ [] }

abbrev without_constraint : String → TableSchema → TableSchema
without_constraint name t = record t {
  constraints = select (λ c. not (str_eq (constraint_name c) name)) t.constraints;
}

-- One operation. What belongs to a table or a column goes with it, but not an enumeration type.
unfoldable pub apply : Operation → Schema → Option Schema
unfolding select update_where
apply (Operation.create_table t) s =
    provided (can_create t s)
      (record s { tables = s.tables ++ t ∷ []; enums = s.enums ++ enums_of t.columns })
apply (Operation.create_index i) s =
    provided (can_index i s) (record s { indexes = s.indexes ++ i ∷ [] })
apply (Operation.drop_table name) s = provided (can_drop name s) (record s {
  tables = select (λ t. not (is_named name t)) s.tables;
  indexes = select (λ i. not (str_eq i.table name)) s.indexes;
})
apply (Operation.add_column table column) s =
    provided (has_table_where table (λ t. not (among column.name (column_names t.columns))) s)
      (changed table (λ t. record t { columns = t.columns ++ column ∷ [] }) s)
apply (Operation.drop_column table column) s =
    provided (has_table_where table (λ t. among column (column_names t.columns)) s)
      (record (changed table (without_column column) s) {
        indexes = select (λ i. not (str_eq i.table table && among column i.columns)) s.indexes;
      })
apply (Operation.create_check_constraint name table condition) s =
    let new = Constraint.check condition name in
    provided
      (has_table_where table
        (λ t.
          not (among name (constraint_names t.constraints))
          && are_columns (constraint_columns new) t.columns)
        s)
      (changed table (with_constraint new) s)
apply (Operation.drop_constraint name table) s =
    provided (has_table_where table (λ t. among name (constraint_names t.constraints)) s)
      (changed table (without_constraint name) s)
apply (Operation.drop_enum name) s =
    provided (all (λ t. not (among name (enums_of t.columns))) s.tables)
      (record s { enums = select (λ e. not (str_eq e name)) s.enums })
