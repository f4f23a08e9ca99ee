-- ===== src/Repositories/Reservation.antt =====
-- src/repositories/reservation_repository.py. An UPDATE is guarded by the status ACTIVE.
use inventory_reservation_or.Prelude.{
  ℕ, Bool, true, false, ◌&&◌, Option, none, some, List, [], ◌∷◌, ltb, ◌==◌, if◌then◌else◌,
}
use inventory_reservation_or.Prelude.Lists.{take}
use inventory_reservation_or.Models.{Uid, Time, ReservationStatus, is_active, InventoryReservation}
use inventory_reservation_or.Session.{Session, St, Action, ok, err, integrity_error, now}
use inventory_reservation_or.Table.{find, select, update_where, rowcount}

abbrev pub set_reservations : List InventoryReservation → Session → Session
set_reservations rows s = record s { tables = record s.tables { reservations = rows } }

-- WHERE id = :id AND status = 'ACTIVE'
abbrev pub is_active_with : Uid → InventoryReservation → Bool
is_active_with reservation_id r = r.id == reservation_id && is_active r.status

unfoldable pub get_by_id : Uid → Session → Option InventoryReservation
get_by_id reservation_id s = find (λ r. r.id == reservation_id) s.tables.reservations

unfoldable pub list_active_for_order : Uid → Session → List InventoryReservation
list_active_for_order order_id s =
    select (λ r. r.order_id == order_id && is_active r.status) s.tables.reservations

-- INSERT; a second row with the primary key `id` is refused.
abbrev pub add_unless :
    InventoryReservation → Option InventoryReservation → Action InventoryReservation
add_unless reservation (some _) s = (err integrity_error, s)
add_unless reservation none s =
    (ok reservation, set_reservations (reservation ∷ s.tables.reservations) s)

unfoldable pub create : InventoryReservation → Action InventoryReservation
create reservation s =
    add_unless reservation (find (λ r. r.id == reservation.id) s.tables.reservations) s

unfoldable pub mark_released : Uid → St Bool
unfolding now
mark_released reservation_id s =
    let (t, s') = now s in
    let test = is_active_with reservation_id in
    let rows = s'.tables.reservations in
    (
      rowcount test rows == 1,
      set_reservations
          (update_where test
            (λ r. record r { status = ReservationStatus.released; released_at = some t }) rows)
          s',
    )

unfoldable pub mark_consumed : Uid → St Bool
mark_consumed reservation_id s =
    let test = is_active_with reservation_id in
    let rows = s.tables.reservations in
    (
      rowcount test rows == 1,
      set_reservations
          (update_where test (λ r. record r { status = ReservationStatus.consumed }) rows) s,
    )

-- WHERE status = 'ACTIVE' AND expires_at < :now
abbrev pub has_expired : Time → InventoryReservation → Bool
has_expired t r = is_active r.status && ltb r.expires_at t

-- WHERE id IN ids
abbrev pub is_among : List Uid → Uid → Bool
is_among [] id = false
is_among (i ∷ ids) id = if i == id then true else is_among ids id

abbrev pub ids_of : List InventoryReservation → List Uid
ids_of [] = []
ids_of (r ∷ rows) = r.id ∷ ids_of rows

abbrev pub release_at : Time → InventoryReservation → InventoryReservation
release_at t r = record r { status = ReservationStatus.released; released_at = some t }

-- The second statement, which is not issued for no ids; it returns the rows that it has updated.
unfoldable pub release_claimed : Time → List Uid → St (List InventoryReservation)
release_claimed t [] s = ([], s)
release_claimed t (id ∷ ids) s =
    let test : InventoryReservation → Bool = λ r. is_among (id ∷ ids) r.id in
    let updated = update_where test (release_at t) s.tables.reservations in
    (select test updated, set_reservations updated s)

unfoldable pub claim_expired_batch : Time → ℕ → St (List InventoryReservation)
unfolding release_claimed
claim_expired_batch t limit s =
    release_claimed t (ids_of (take limit (select (has_expired t) s.tables.reservations))) s
