-- ===== src/Stock/Books/Copies.antt =====
-- The copies of reservations that a query returned, and the table's rows later in the transaction.
use inventory_reservation_or.Prelude.{◌≡◌, refl, Bool, false, List, [], ◌∷◌, arith, ◌==◌}
use inventory_reservation_or.Prelude.Lists.{All}
use inventory_reservation_or.Models.{InventoryReservation}
use inventory_reservation_or.Table.{select, update_where}
use inventory_reservation_or.Table.Laws.{
  find_sound, find-none, All-find, All-update_where, All-map, All-zip,
}
use inventory_reservation_or.Table.Sort.{All-select}
use inventory_reservation_or.Repositories.Reservation.{is_active_with}
use inventory_reservation_or.Stock.{HasUniqueIds}
use inventory_reservation_or.Stock.Books.End.{IsCopy}

abbrev pub Agrees : InventoryReservation → InventoryReservation → Type 0
Agrees r x =
    x.id ≡ r.id
    → (x.product_id ≡ r.product_id) × (x.warehouse_id ≡ r.warehouse_id) × (x.quantity ≡ r.quantity)

-- Every row of the table with the id of one of the copies agrees with it.
abbrev pub AreCopies : List InventoryReservation → List InventoryReservation → Type 0
AreCopies copies rows = All (λ r. All (Agrees r) rows) copies

pub AreCopies-IsCopy :
    (r : InventoryReservation) (rows : List InventoryReservation)
    → All (Agrees r) rows
    → IsCopy r rows
AreCopies-IsCopy r rows all x e =
    All-find (Agrees r) (is_active_with r.id) rows all e
      (let hit = find_sound (is_active_with r.id) rows e in ground arith)

Agrees-other :
    (r : InventoryReservation) (rows : List InventoryReservation)
    → All (λ x. (x.id == r.id) ≡ false) rows
    → All (Agrees r) rows
Agrees-other r rows h = All-map _ (Agrees r) (λ x ne same. absurd (ground arith)) rows h

-- Where ids are unique, each row agrees with all.
all_agree : (rows : List InventoryReservation) → HasUniqueIds rows → AreCopies rows rows
all_agree [] u = tt
all_agree (y ∷ rows) u =
    let others = find-none (λ x. x.id == y.id) rows u.0 in
    (
      ((λ same. (refl, refl, refl)), Agrees-other y rows others),
      All-map _ _ (λ x both. ((λ same. absurd (let ne = both.0 in ground arith)), both.1)) rows
          (All-zip _ _ rows others (all_agree rows u.1)),
    )

-- What a query selects agrees with the table.
pub select-AreCopies :
    (test : InventoryReservation → Bool) (rows : List InventoryReservation)
    → HasUniqueIds rows
    → AreCopies (select test rows) rows
select-AreCopies test rows u =
    All-map _ _ (λ r both. both.0) (select test rows) (All-select _ test rows (all_agree rows u))

-- An UPDATE of a reservation's status leaves copies copies.
pub update_where-AreCopies :
    (test : InventoryReservation → Bool) (f : InventoryReservation → InventoryReservation)
    → ((r x : InventoryReservation) → Agrees r x → Agrees r (f x))
    → (copies rows : List InventoryReservation) → AreCopies copies rows
    → AreCopies copies (update_where test f rows)
update_where-AreCopies test f keeps copies rows h =
    All-map _ _ (λ r all. All-update_where (Agrees r) test f (keeps r) rows all) copies h
