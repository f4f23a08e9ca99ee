-- ===== src/Stock/Books/Loops.antt =====
-- The loops over an order's active reservations in src/services/order_service.py and
-- src/workers/order_processor.py.
use inventory_reservation_or.Prelude.{
  ◌≡◌, refl, ap, ◌∙◌, Bool, true, false, ◌&&◌, List, [], ◌∷◌, arith, ◌==◌,
}
use inventory_reservation_or.Prelude.Lists.{All}
use inventory_reservation_or.Models.{Uid, InventoryReservation, is_active}
use inventory_reservation_or.Session.{Session}
use inventory_reservation_or.Table.{select, update_where}
use inventory_reservation_or.Table.Laws.{All-map}
use inventory_reservation_or.Repositories.Reservation.{
  is_active_with, is_among, ids_of, release_at, list_active_for_order,
}
use inventory_reservation_or.Services.Inventory.{release_reservation, consume_reservation}
use inventory_reservation_or.Services.Orders.Cancel.{release_all}
use inventory_reservation_or.Workers.Processor.{consume_all}
use inventory_reservation_or.Frames.{
  Frame, rest, consume_status, release_reservation-frame, consume_reservation-frame,
}
use inventory_reservation_or.Stock.{IsConsistent}
use inventory_reservation_or.Stock.Books.Copies.{
  AreCopies, AreCopies-IsCopy, update_where-AreCopies, select-AreCopies,
}
use inventory_reservation_or.Stock.Books.Release.{
  release_reservation-IsConsistent, consume_reservation-IsConsistent,
}

abbrev pub is_active_of : Uid → InventoryReservation → Bool
is_active_of order_id r = r.order_id == order_id && is_active r.status

-- The active reservations of the order are among the copies.
abbrev Covered : Uid → List InventoryReservation → InventoryReservation → Type 0
Covered o copies x = is_active_of o x ≡ true → is_among (ids_of copies) x.id ≡ true

abbrev pub Covers : Uid → List InventoryReservation → List InventoryReservation → Type 0
Covers o copies rows = All (Covered o copies) rows

select-Covers :
    (o : Uid) (rows : List InventoryReservation) → Covers o (select (is_active_of o) rows) rows
unfolding select
select-Covers o [] = tt
select-Covers o (y ∷ rows) =
    let ih = select-Covers o rows in
    let sel = select (is_active_of o) rows in
    let weaker =
      All-map (Covered o sel) (Covered o (y ∷ sel)) (λ x h a. let m = h a in ground arith) rows
        ih in
    ground arith

-- To end one of them leaves the others to cover.
Covers-step :
    (o : Uid) (r : InventoryReservation) (copies : List InventoryReservation)
    (f : InventoryReservation → InventoryReservation)
    → ((x : InventoryReservation) → is_active (f x).status ≡ false)
    → (rows : List InventoryReservation) → Covers o (r ∷ copies) rows
    → Covers o copies (update_where (is_active_with r.id) f rows)
unfolding update_where
Covers-step o r copies f ends [] h = tt
Covers-step o r copies f ends (x ∷ rows) h =
    ((λ a. ground (arith, h.0, ends x)), Covers-step o r copies f ends rows h.1)

Covers-none :
    (o : Uid) (rows : List InventoryReservation)
    → Covers o [] rows
    → select (is_active_of o) rows ≡ []
unfolding select
Covers-none o [] h = refl
Covers-none o (x ∷ rows) h = ground (arith, h.0, Covers-none o rows h.1)

-- What a loop over all active reservations of an order achieves.
pub record Ended (o : Uid) (pending : List InventoryReservation) (s s' : Session) : Type 0 where
  pub consistent : IsConsistent pending s'.tables
  pub none_left : list_active_for_order o s' ≡ []
  pub same_rest : rest s' ≡ rest s

module _ (o : Uid) {pending : List InventoryReservation} where
  release_all-Ended :
      (copies : List InventoryReservation) (s : Session)
      → IsConsistent pending s.tables
      → AreCopies copies s.tables.reservations
      → Covers o copies s.tables.reservations
      → Ended o pending s (release_all o copies s).1
  unfolding release_all list_active_for_order
  release_all-Ended [] s h copy cover = record {
    consistent = h;
    none_left = Covers-none o s.tables.reservations cover;
    same_rest = refl;
  }
  release_all-Ended (r ∷ copies) s h copy cover =
      let s' = (release_reservation r o s).1 in
      let step = release_reservation-frame r o s in
      let same : s'.tables.reservations ≡ _ = ap (λ (f : Frame). f.1) step in
      let f = release_at (s.clock s.ticks) in
      let rows = s.tables.reservations in
      let ended =
        release_all-Ended copies s'
          (release_reservation-IsConsistent r o s h (AreCopies-IsCopy r rows copy.0))
          (rw same (update_where-AreCopies _ f (λ r x a. a) copies rows copy.1))
          (rw same (Covers-step o r copies f (λ x. refl) rows cover)) in
      record {
        consistent = ended.consistent;
        none_left = ended.none_left;
        same_rest = ended.same_rest ∙ ap (λ (f : Frame). f.0) step;
      }

  consume_all-Ended :
      (copies : List InventoryReservation) (s : Session)
      → IsConsistent pending s.tables
      → AreCopies copies s.tables.reservations
      → Covers o copies s.tables.reservations
      → Ended o pending s (consume_all o copies s).1
  unfolding consume_all list_active_for_order
  consume_all-Ended [] s h copy cover = record {
    consistent = h;
    none_left = Covers-none o s.tables.reservations cover;
    same_rest = refl;
  }
  consume_all-Ended (r ∷ copies) s h copy cover =
      let s' = (consume_reservation r o s).1 in
      let step = consume_reservation-frame r o s in
      let same : s'.tables.reservations ≡ _ = ap (λ (f : Frame). f.1) step in
      let rows = s.tables.reservations in
      let ended =
        consume_all-Ended copies s'
          (consume_reservation-IsConsistent r o s h (AreCopies-IsCopy r rows copy.0))
          (rw same (update_where-AreCopies _ consume_status (λ r x a. a) copies rows copy.1))
          (rw same (Covers-step o r copies consume_status (λ x. refl) rows cover)) in
      record {
        consistent = ended.consistent;
        none_left = ended.none_left;
        same_rest = ended.same_rest ∙ ap (λ (f : Frame). f.0) step;
      }

  module _ (s : Session) (h : IsConsistent pending s.tables) where
    -- The release of all active reservations of an order, from agreeing books, leaves none of them
    -- active and the books in agreement, with the orders, the catalogue, the idempotency keys and
    -- what is committed as they were.
    pub release_active-Ended : Ended o pending s (release_all o (list_active_for_order o s) s).1
    unfolding list_active_for_order
    release_active-Ended =
        release_all-Ended _ s h (select-AreCopies _ s.tables.reservations h.unique_ids)
          (select-Covers o s.tables.reservations)

    -- The consumption of all active reservations of an order, from agreeing books, leaves none of
    -- them active and the books in agreement, with the orders, the catalogue, the idempotency keys
    -- and what is committed as they were.
    pub consume_active-Ended : Ended o pending s (consume_all o (list_active_for_order o s) s).1
    unfolding list_active_for_order
    consume_active-Ended =
        consume_all-Ended _ s h (select-AreCopies _ s.tables.reservations h.unique_ids)
          (select-Covers o s.tables.reservations)
