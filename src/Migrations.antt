-- ===== src/Migrations.antt =====
-- The schema of the database, as the scripts of src/migrations/versions make and unmake it.
pub mod Ddl
pub mod Columns
pub mod Apply
pub mod Initial
pub mod LowStock
pub mod Paths
