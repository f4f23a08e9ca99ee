-- ===== src/Api/Gate/Routes.antt =====
-- The routes of src/api behind their dependencies.
use inventory_reservation_or.Prelude.{List, [], ◌∷◌}
use inventory_reservation_or.Models.{UserRole}
use inventory_reservation_or.Session.Raises.{Raises}
use inventory_reservation_or.Session.{Session}
use inventory_reservation_or.Services.Orders.Create
use inventory_reservation_or.Services.Orders.Cancel
use inventory_reservation_or.Services.Adjustments
use inventory_reservation_or.Services.LowStock
use inventory_reservation_or.Services.Catalog
use inventory_reservation_or.Api.Orders
use inventory_reservation_or.Api.Orders.{both}
use inventory_reservation_or.Api.Admin
use inventory_reservation_or.Api.Admin.{admin_only}
use inventory_reservation_or.Api.Server.{
  Config, Request, post_order, get_order_by_id, get_orders, post_cancel, get_product_by_id,
}

module _ (config : Config) where
  -- The roles of a request's route
  abbrev roles_of : Request → List UserRole
  roles_of (post_order _ _ _) = UserRole.client ∷ []
  roles_of (get_order_by_id _ _) = both
  roles_of (get_orders _ _) = both
  roles_of (post_cancel _ _) = both
  roles_of (get_product_by_id _ _) = both
  roles_of _ = admin_only
