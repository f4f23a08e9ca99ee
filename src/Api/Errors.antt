-- ===== src/Api/Errors.antt =====
-- src/core/exceptions.py and src/middleware/error_handler.py: the status and the code that an
-- exception is answered with. What is no AppError is answered by the handler for `Exception`.
use inventory_reservation_or.Prelude.{ℕ, String}
use inventory_reservation_or.Session.{
  Error, Result, ok, err, invalid_request, unauthorized, forbidden, product_not_found,
  warehouse_not_found, order_not_found, insufficient_inventory, duplicate_sku,
  order_cannot_be_cancelled, idempotency_conflict,
}

-- `status_code` and `code` of each class
abbrev pub status_code : Error → ℕ
status_code (invalid_request _) = 400
status_code (unauthorized _) = 401
status_code forbidden = 403
status_code (product_not_found _) = 404
status_code (warehouse_not_found _) = 404
status_code (order_not_found _) = 404
status_code (insufficient_inventory _ _) = 409
status_code (duplicate_sku _) = 409
status_code (order_cannot_be_cancelled _ _) = 409
status_code (idempotency_conflict _) = 409
status_code _ = 500

abbrev pub code : Error → String
code (invalid_request _) = "INVALID_REQUEST"
code (unauthorized _) = "UNAUTHORIZED"
code forbidden = "FORBIDDEN"
code (product_not_found _) = "PRODUCT_NOT_FOUND"
code (warehouse_not_found _) = "WAREHOUSE_NOT_FOUND"
code (order_not_found _) = "ORDER_NOT_FOUND"
code (insufficient_inventory _ _) = "INSUFFICIENT_INVENTORY"
code (duplicate_sku _) = "DUPLICATE_SKU"
code (order_cannot_be_cancelled _ _) = "ORDER_CANNOT_BE_CANCELLED"
code (idempotency_conflict _) = "IDEMPOTENCY_KEY_IN_PROGRESS"
code _ = "INTERNAL_ERROR"

-- A response: the status and the body, or the status and the code of the error envelope.
pub data Response (A : Type 0) : Type 0 where
  success : ℕ → A → Response A
  failure : ℕ → String → Response A

-- The answer of an endpoint with its own status for success.
abbrev pub respond : {A : Type 0} → ℕ → Result A → Response A
respond status (ok a) = success status a
respond status (err e) = failure (status_code e) (code e)
