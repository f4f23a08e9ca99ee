-- ===== src/Models.antt =====
-- The tables' rows (src/models/*.py) and their enumerations (src/models/enums.py).
pub mod Enums
pub mod Rows
pub use Enums.*
pub use Rows.*
