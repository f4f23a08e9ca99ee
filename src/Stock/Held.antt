-- ===== src/Stock/Held.antt =====
-- How the guarded UPDATEs of src/repositories/reservation_repository.py change what the active
-- reservations hold.
use inventory_reservation_or.Prelude.{
  ℕ, ◌+◌, ◌≡◌, refl, Bool, false, Option, none, some, List, [], ◌∷◌, ◌++◌, arith, ◌==◌,
  if◌then◌else◌,
}
use inventory_reservation_or.Models.{Uid, InventoryReservation, is_active}
use inventory_reservation_or.Table.{find, update_where, rowcount}
use inventory_reservation_or.Repositories.Reservation.{is_active_with}
use inventory_reservation_or.Stock.{holds, held, HasUniqueIds}

pub held-append :
    (p w : Uid) (xs ys : List InventoryReservation)
    → held p w (xs ++ ys) ≡ held p w xs + held p w ys
held-append p w [] ys = omega arith
held-append p w (r ∷ xs) ys = omega (arith, held-append p w xs ys)

abbrev with_id : Uid → InventoryReservation → Bool
with_id id r = r.id == id

abbrev pub found_holds : Uid → Uid → Option InventoryReservation → ℕ
found_holds p w none = 0
found_holds p w (some r) = holds p w r

abbrev pub found_one : Option InventoryReservation → ℕ
found_one none = 0
found_one (some r) = 1

-- No active reservation has an id that no reservation has.
no_active :
    (id : Uid) (rows : List InventoryReservation)
    → find (with_id id) rows ≡ none
    → find (is_active_with id) rows ≡ none
unfolding find
no_active id [] h = refl
no_active id (r ∷ rows) h = ground (arith, no_active id rows)

-- An assignment that ends a reservation: it is no longer active, and keeps its id.
module _ (f : InventoryReservation → InventoryReservation)
    (ends : (r : InventoryReservation) → is_active (f r).status ≡ false)
    (same_id : (r : InventoryReservation) → (f r).id ≡ r.id) where
  untouched :
      (p w id : Uid) (rows : List InventoryReservation)
      → find (is_active_with id) rows ≡ none
      → (held p w (update_where (is_active_with id) f rows) ≡ held p w rows)
        × (rowcount (is_active_with id) rows ≡ 0)
  unfolding find update_where rowcount
  untouched p w id [] h = (refl, refl)
  untouched p w id (r ∷ rows) h = ground (arith, untouched p w id rows)

  -- The one reservation that is ended held its quantity, and no longer does.
  pub held-ended :
      (p w id : Uid) (rows : List InventoryReservation)
      → HasUniqueIds rows
      → let found = find (is_active_with id) rows in
        (held p w (update_where (is_active_with id) f rows) + found_holds p w found ≡ held p w rows)
        × (rowcount (is_active_with id) rows ≡ found_one found)
  unfolding find update_where rowcount
  held-ended p w id [] u = (refl, refl)
  held-ended p w id (r ∷ rows) u =
      ground
        (arith, ends r, held-ended p w id rows u.1, no_active r.id rows u.0, untouched p w id rows)

-- An UPDATE that leaves the ids alone leaves them unique.
module _ (test : InventoryReservation → Bool) (f : InventoryReservation → InventoryReservation)
    (same_id : (r : InventoryReservation) → (f r).id ≡ r.id) where
  no_id :
      (k : Uid) (rows : List InventoryReservation)
      → find (with_id k) rows ≡ none
      → find (with_id k) (update_where test f rows) ≡ none
  unfolding find update_where
  no_id k [] h = refl
  no_id k (r ∷ rows) h = ground (arith, same_id r, no_id k rows)

  updated_id : (r : InventoryReservation) → (if test r then f r else r).id ≡ r.id
  updated_id r = ground (arith, same_id r)

  pub update_where-HasUniqueIds :
      (rows : List InventoryReservation)
      → HasUniqueIds rows
      → HasUniqueIds (update_where test f rows)
  unfolding update_where
  update_where-HasUniqueIds [] u = tt
  update_where-HasUniqueIds (r ∷ rows) u =
      (rw (updated_id r) (no_id r.id rows u.0), update_where-HasUniqueIds rows u.1)
