-- ===== src/Api.antt =====
-- The HTTP layer: src/api/*.py, the schemas of src/schemas that check a request, and
-- src/middleware/error_handler.py.
pub mod Errors
pub mod Deps
pub mod Requests
pub mod Orders
pub mod Admin
pub mod Health
pub mod Access
pub mod Server
pub mod Reading
pub mod Atomic
pub mod Gate
pub mod Accepted
pub mod Pages
