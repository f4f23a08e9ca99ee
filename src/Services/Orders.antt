-- ===== src/Services/Orders.antt =====
-- src/services/order_service.py: creation, retrieval, listing and cancellation of orders.
pub mod Create
pub mod Cancel
pub mod Bill
pub mod Stored
