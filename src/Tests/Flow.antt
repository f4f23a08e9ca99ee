-- ===== src/Tests/Flow.antt =====
-- Orders and stock of the small shop of Tests.Shop: what orders cost, where they are listed, how
-- they end, and the stock as the commands leave it.
use mathlib.Core.List.{Permᴰ}
use mathlib.Core.List.Permᴰ
use inventory_reservation_or.Session.{Session}
use inventory_reservation_or.Table.{select}
use inventory_reservation_or.Table.Arranged.{AreDistinct, AreDescending}
use inventory_reservation_or.Api.Pages.Whole.{listed, list_orders-pages}
use inventory_reservation_or.Prelude.{
  ℕ, Bool-cases, inl, inr, ◌==◌, if◌then◌else◌, ◌≡◌, refl, none, some, [], ◌∷◌, List, arith, ◌≤◌,
}
use inventory_reservation_or.Prelude.Int.{pos}
use inventory_reservation_or.Prelude.Lists.{length, All}
use inventory_reservation_or.Models.{Uid, Order, OrderStatus}
use inventory_reservation_or.Session.Ensures.{Ensures}
use inventory_reservation_or.Table.{find}
use inventory_reservation_or.Repositories.Order
use inventory_reservation_or.Services.LowStock.{set_threshold}
use inventory_reservation_or.Services.Orders.Create.{place_order}
use inventory_reservation_or.Services.Orders.Cancel.{list_orders}
use inventory_reservation_or.Services.Orders.Bill.{IsBill}
use inventory_reservation_or.Services.Orders.Bill.Placed.{place_order-IsBill}
use inventory_reservation_or.Services.Orders.Stored.{IsStored, place_order-IsStored}
use inventory_reservation_or.Workers.Processor.{RetryPolicy}
use inventory_reservation_or.Stock.Level.{IsLevel, set_threshold-IsLevel}
use inventory_reservation_or.Stock.Shelf.{
  Command, to_reserve, to_release, to_consume, to_adjust, shelf_of, specified_all, executed_all,
}
use inventory_reservation_or.Stock.Shelf.Refines.{executed_all-refines}
use inventory_reservation_or.Lifecycle.Settles.{IsFinished, deliveries, process_order-IsFinished}
use inventory_reservation_or.Api.Orders.{total_pages}
use inventory_reservation_or.Api.Pages.{pages, IsListed, list_orders-IsListed}
use inventory_reservation_or.Tests.Shop.{tables, shop, shop-IsValid, alice, two_lamps, placed}

place_order-IsBill_example :
    Ensures
      (λ response _. IsBill shop.tables.products two_lamps.items response)
      (λ _. Unit)
      (place_order 30 two_lamps alice none none shop)
place_order-IsBill_example = place_order-IsBill 30 two_lamps alice none none shop

place_order-IsStored_example :
    Ensures
      (IsStored two_lamps alice (some "k"))
      (λ _. Unit)
      (place_order 30 two_lamps alice (some "k") none shop)
place_order-IsStored_example = place_order-IsStored 30 two_lamps alice (some "k") none shop

-- Alice's two orders, a page to an order, where the query for the second page meets them in the
-- other order.
abbrev earlier : Order
earlier = record placed { id = 6; created_at = 1 }

abbrev in_order : Session
in_order = record shop { tables = record tables { orders = earlier ∷ placed ∷ [] } }

abbrev turned : Session
turned = record shop { tables = record tables { orders = placed ∷ earlier ∷ [] } }

abbrev at_page : ℕ → Session
at_page page = if page == 2 then turned else in_order

at_page-same : (page : ℕ) → Permᴰ (at_page page).tables.orders in_order.tables.orders
at_page-same page = elim (Bool-cases (page == 2)) [
  | inl e ↦ rw e (Permᴰ.swap refl refl)
  | inr e ↦ rw e (Permᴰ.refl _)
]

no_ties : AreDistinct (λ o. o.created_at) (listed alice none none none in_order)
unfolding select
no_ties = (((λ e. cc), tt), (tt, tt))

list_orders-pages_example :
    let answer : ℕ → List Order × ℕ =
      λ page. list_orders alice none none none page 1 (at_page page) in
    let whole = pages (λ page. (answer page).0) (total_pages (answer 1).1 1) in
    Permᴰ whole (listed alice none none none in_order) × AreDescending (λ o. o.created_at) whole
list_orders-pages_example =
    list_orders-pages alice none none none 1 in_order at_page (omega arith) at_page-same no_ties

list_orders-IsListed_example :
    let (orders, total) = list_orders alice (some OrderStatus.reserved) none none 1 5 shop in
    (length orders ≤ 5)
    × (length orders ≤ total)
    × All (IsListed alice (some OrderStatus.reserved) none none) orders
list_orders-IsListed_example =
    list_orders-IsListed alice (some OrderStatus.reserved) none none 1 5 shop

-- Three lamps go back into stock, nine are too many, five arrive, and there is no other warehouse.
abbrev lamp_commands : List (Uid × Uid × Command)
lamp_commands =
    (1, 2, to_release 3)
    ∷ (1, 2, to_reserve 9)
    ∷ (1, 2, to_adjust (pos 5))
    ∷ (1, 9, to_consume 1)
    ∷ []

executed_all-refines_example :
    let (dones, s') = executed_all lamp_commands shop in
    (dones, shelf_of s'.tables.inventory)
    ≡ specified_all lamp_commands (shelf_of shop.tables.inventory)
executed_all-refines_example =
    executed_all-refines lamp_commands shop shop-IsValid.consistent.unique_rows

set_threshold-IsLevel_example : Ensures (IsLevel 1 2 6) (λ _. Unit) (set_threshold 1 2 (pos 6) shop)
set_threshold-IsLevel_example = set_threshold-IsLevel 1 2 (pos 6) shop

abbrev patient : RetryPolicy
patient = record { payment_max_attempts = 3; payment_retry_backoff_list = 5 ∷ 30 ∷ [] }

placed_stored : Order.get_by_id 7 shop ≡ some placed
unfolding Order.get_by_id find
placed_stored = refl

-- Three deliveries are enough for an order of which none was tried.
process_order-IsFinished_example : IsFinished 7 "tok" (deliveries patient 7 3 shop)
process_order-IsFinished_example =
    process_order-IsFinished patient 7 3 placed shop shop-IsValid placed_stored refl (omega arith)
      (omega arith)
