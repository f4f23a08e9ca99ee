-- ===== src/Stock/Shelf.antt =====
-- An abstract stock: for each product and warehouse, nothing or the available and the reserved
-- quantity. The UPDATEs of src/repositories/inventory_repository.py that move quantities are its
-- commands; rows, their order, their ids and their low-stock columns are forgotten.
pub mod Refines
use mathlib.Core.Option
use inventory_reservation_or.Prelude.{
  ℕ, ◌+◌, ◌-◌, Bool, true, false, not, ◌&&◌, Option, none, some, List, [], ◌∷◌, leb, ◌==◌,
  if◌then◌else◌,
}
use inventory_reservation_or.Prelude.Int.{ℤ, pos, ◌+ℤ◌, pos_part, is_negative}
use inventory_reservation_or.Models.{Uid, Inventory}
use inventory_reservation_or.Session.{Session, St}
use inventory_reservation_or.Repositories.Inventory
use inventory_reservation_or.Stock.{row_at}

pub data Command : Type 0 where
  to_reserve : ℕ → Command
  to_release : ℕ → Command
  to_consume : ℕ → Command
  to_adjust : ℤ → Command

-- The available and the reserved quantity of a pair
abbrev pub Level : Type 0
Level = ℕ × ℕ

abbrev pub Shelf : Type 0
Shelf = Uid → Uid → Option Level

-- When a command is done, and what it then does.
abbrev pub is_possible : Command → Level → Bool
is_possible (to_reserve q) (a, r) = leb q a
is_possible (to_release q) (a, r) = leb q r
is_possible (to_consume q) (a, r) = leb q r
is_possible (to_adjust d) (a, r) = not (is_negative (pos a +ℤ d))

abbrev pub moved : Command → Level → Level
moved (to_reserve q) (a, r) = (a - q, r + q)
moved (to_release q) (a, r) = (a + q, r - q)
moved (to_consume q) (a, r) = (a, r - q)
moved (to_adjust d) (a, r) = (pos_part (pos a +ℤ d), r)

abbrev pub is_done : Command → Option Level → Bool
is_done c none = false
is_done c (some l) = is_possible c l

abbrev pub outcome : Command → Option Level → Option Level
outcome c none = none
outcome c (some l) = some (if is_possible c l then moved c l else l)

-- A command for a pair, on the abstract stock.
abbrev pub specified : Uid → Uid → Command → Shelf → Bool × Shelf
specified p w c shelf = (
  is_done c (shelf p w),
  λ p' w'. if p == p' && w == w' then outcome c (shelf p w) else shelf p' w',
)

-- The same command in the database
unfoldable pub executed : Uid → Uid → Command → St Bool
unfolding Inventory.try_reserve Inventory.release Inventory.consume Inventory.adjust_available
executed p w (to_reserve q) = Inventory.try_reserve p w q
executed p w (to_release q) = Inventory.release p w q
executed p w (to_consume q) = Inventory.consume p w q
executed p w (to_adjust d) = Inventory.adjust_available p w d

abbrev pub levels : Inventory → Level
levels r = (r.available_quantity, r.reserved_quantity)

-- What the table says of the abstract stock.
abbrev pub shelf_of : List Inventory → Shelf
shelf_of rows p w = Option.map levels (row_at p w rows)

-- Commands for pairs, one after the other, with their answers.
abbrev pub specified_all : List (Uid × Uid × Command) → Shelf → List Bool × Shelf
specified_all [] shelf = ([], shelf)
specified_all ((p, w, c) ∷ commands) shelf =
    let (done, shelf₁) = specified p w c shelf in
    let (rest, shelf₂) = specified_all commands shelf₁ in (done ∷ rest, shelf₂)

unfoldable pub executed_all : List (Uid × Uid × Command) → St (List Bool)
unfolding executed
executed_all [] s = ([], s)
executed_all ((p, w, c) ∷ commands) s =
    let (done, s₁) = executed p w c s in
    let (rest, s₂) = executed_all commands s₁ in (done ∷ rest, s₂)
