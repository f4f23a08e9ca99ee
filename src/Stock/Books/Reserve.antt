-- ===== src/Stock/Books/Reserve.antt =====
-- `reserve` of src/services/inventory_service.py, and the books with one more pending reservation.
use inventory_reservation_or.Prelude.{ℕ, ◌+◌, ◌≡◌, true, ◌&&◌, List, arith, ◌==◌}
use inventory_reservation_or.Prelude.Int.{neg}
use inventory_reservation_or.Models.{Uid, InventoryReservation}
use inventory_reservation_or.Session.{Session}
use inventory_reservation_or.Repositories.Inventory
use inventory_reservation_or.Repositories.Logs.{record_audit}
use inventory_reservation_or.Services.Inventory.{reserve}
use inventory_reservation_or.Stock.{IsConsistent, IsUnique, held, seen_at}
use inventory_reservation_or.Stock.Moves.{Moved, try_reserve_moves, try_reserve-IsUnique}
use inventory_reservation_or.Stock.Books.Posting.{post_down}
use inventory_reservation_or.Stock.Books.Flags.{check-IsConsistent}

-- What a reservation that is done moves.
done_moves :
    (p w : Uid) (q : ℕ) (s : Session)
    → IsUnique s.tables.inventory
    → (Inventory.try_reserve p w q s).0 ≡ true
    → (p' w' : Uid)
    → let moved = seen_at p w p' w' q in
      Moved moved 0 0 moved p' w' s.tables.inventory
        (Inventory.try_reserve p w q s).1.tables.inventory
done_moves p w q s u done p' w' = rw done at (try_reserve_moves p w q s u p' w')

-- A reservation that is done keeps the books, if what is pending now holds its quantity too.
module _ (p w : Uid) (q : ℕ) (order_id : Uid) (s : Session)
    {pending pending' : List InventoryReservation} (h : IsConsistent pending s.tables)
    (one_more : (p' w' : Uid) → held p' w' pending' ≡ held p' w' pending + seen_at p w p' w' q)
    (done : (Inventory.try_reserve p w q s).0 ≡ true) where
  pub reserve-IsConsistent : IsConsistent pending' (reserve p w q order_id s).1.tables
  unfolding reserve Inventory.try_reserve record_audit
  reserve-IsConsistent =
      let moves = done_moves p w q s h.unique_rows done in
      rw done (
        check-IsConsistent p w (neg q) _ (record {
          unique_rows = try_reserve-IsUnique p w q s h.unique_rows;
          unique_ids = h.unique_ids;
          balance = λ p' w'. omega (arith, (moves p' w').0, h.balance p' w', one_more p' w');
          explained =
              λ p' w'. post_down (p == p' && w == w') q _ _ _ (h.explained p' w') (moves p' w').1;
        }))
