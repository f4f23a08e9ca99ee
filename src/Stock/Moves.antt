-- ===== src/Stock/Moves.antt =====
-- How the UPDATEs of src/repositories/inventory_repository.py move the two quantities of a pair,
-- seen from any pair, in a table with one row to a pair.
use inventory_reservation_or.Prelude.{
  ℕ, ◌+◌, ◌-◌, ◌≤◌, ◌≡◌, refl, Bool, false, none, some, List, arith, leb, if◌then◌else◌,
}
use inventory_reservation_or.Models.{Uid, Inventory}
use inventory_reservation_or.Session.{Session}
use inventory_reservation_or.Repositories.Inventory
use inventory_reservation_or.Repositories.Inventory.{is_at, at_or_below_threshold, above_threshold}
use inventory_reservation_or.Stock.{IsUnique, row_at, available_at, reserved_at, seen_at}
use inventory_reservation_or.Stock.Rows.{
  rowcount-IsUnique, update_where-IsUnique, row_at-update, same_row,
}

-- The guards and the assignments of the statements.
abbrev has_available : ℕ → Inventory → Bool
has_available q r = leb q r.available_quantity

abbrev has_reserved : ℕ → Inventory → Bool
has_reserved q r = leb q r.reserved_quantity

abbrev to_reserved : ℕ → Inventory → Inventory
to_reserved q r = record r {
  available_quantity = r.available_quantity - q;
  reserved_quantity = r.reserved_quantity + q;
}

abbrev to_available : ℕ → Inventory → Inventory
to_available q r = record r {
  available_quantity = r.available_quantity + q;
  reserved_quantity = r.reserved_quantity - q;
}

abbrev out_of_reserved : ℕ → Inventory → Inventory
out_of_reserved q r = record r { reserved_quantity = r.reserved_quantity - q }

-- `reserved_quantity` moves by `up` and `available_quantity` by `down`, or the other way round.
abbrev pub Moved : ℕ → ℕ → ℕ → ℕ → Uid → Uid → List Inventory → List Inventory → Type 0
Moved reserved_up reserved_down available_up available_down p' w' rows rows' =
    (reserved_at p' w' rows' + reserved_down ≡ reserved_at p' w' rows + reserved_up)
    × (available_at p' w' rows' + available_down ≡ available_at p' w' rows + available_up)

module _ (p w : Uid) (q : ℕ) (s : Session) (u : IsUnique s.tables.inventory) where
  -- With at most one row to a pair, a reservation is done exactly if the pair has a row with at
  -- least the quantity available.
  pub try_reserve-done :
      (Inventory.try_reserve p w q s).0
      ≡ elim (row_at p w s.tables.inventory) [ none ↦ false | some r ↦ leb q r.available_quantity ]
  unfolding Inventory.try_reserve
  try_reserve-done =
      rw (rowcount-IsUnique p w (has_available q) s.tables.inventory u) (ground arith)

  -- With at most one row to a pair, a reservation that is done moves its quantity from available
  -- to reserved, for its own pair and for no other; one that is refused moves nothing.
  pub try_reserve_moves :
      (p' w' : Uid)
      → let (done, s') = Inventory.try_reserve p w q s in
        let moved = if done then seen_at p w p' w' q else 0 in
        Moved moved 0 0 moved p' w' s.tables.inventory s'.tables.inventory
  unfolding Inventory.try_reserve
  try_reserve_moves p' w' =
      let rows = s.tables.inventory in
      rw
        (
          row_at-update p w (has_available q) (to_reserved q) (λ r. refl) (λ r. refl) rows p' w',
          rowcount-IsUnique p w (has_available q) rows u,
        )
        (ground (arith, same_row p w p' w' rows))

  pub try_reserve-IsUnique : IsUnique (Inventory.try_reserve p w q s).1.tables.inventory
  unfolding Inventory.try_reserve
  try_reserve-IsUnique =
      update_where-IsUnique _ (to_reserved q) (λ r. refl) (λ r. refl) s.tables.inventory u

  -- A release of no more than is reserved moves the quantity from reserved to available.
  pub release_moves :
      q ≤ reserved_at p w s.tables.inventory
      → (p' w' : Uid)
      → let moved = seen_at p w p' w' q in
        Moved 0 moved moved 0 p' w' s.tables.inventory
          (Inventory.release p w q s).1.tables.inventory
  unfolding Inventory.release
  release_moves enough p' w' =
      let rows = s.tables.inventory in
      rw (row_at-update p w (has_reserved q) (to_available q) (λ r. refl) (λ r. refl) rows p' w')
        (ground (arith, same_row p w p' w' rows))

  pub release-IsUnique : IsUnique (Inventory.release p w q s).1.tables.inventory
  unfolding Inventory.release
  release-IsUnique =
      update_where-IsUnique _ (to_available q) (λ r. refl) (λ r. refl) s.tables.inventory u

  -- A consumption of no more than is reserved takes the quantity out of reserved.
  pub consume_moves :
      q ≤ reserved_at p w s.tables.inventory
      → (p' w' : Uid)
      → Moved 0
          (seen_at p w p' w' q)
          0
          0
          p'
          w'
          s.tables.inventory
          (Inventory.consume p w q s).1.tables.inventory
  unfolding Inventory.consume
  consume_moves enough p' w' =
      let rows = s.tables.inventory in
      rw (row_at-update p w (has_reserved q) (out_of_reserved q) (λ r. refl) (λ r. refl) rows p' w')
        (ground (arith, same_row p w p' w' rows))

  pub consume-IsUnique : IsUnique (Inventory.consume p w q s).1.tables.inventory
  unfolding Inventory.consume
  consume-IsUnique =
      update_where-IsUnique _ (out_of_reserved q) (λ r. refl) (λ r. refl) s.tables.inventory u
