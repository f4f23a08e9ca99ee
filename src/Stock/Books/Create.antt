-- ===== src/Stock/Books/Create.antt =====
-- The loops of `create_order` in src/services/order_service.py: the lines are reserved one by one,
-- and what is reserved is pending until the reservations are written.
use inventory_reservation_or.Prelude.{
  ℕ, ◌≡◌, refl, sym, ◌∙◌, Option, none, some, List, [], ◌∷◌, arith, Bool-cases, Option-cases, inl,
  inr, ◌==◌,
}
use inventory_reservation_or.Models.{
  Uid, Time, Product, Inventory, InventoryReservation, OrderItemRequest,
}
use inventory_reservation_or.Session.{Session}
use inventory_reservation_or.Session.Ensures.{Ensures, bind-Ensures}
use inventory_reservation_or.Table.{find}
use inventory_reservation_or.Repositories.Inventory
use inventory_reservation_or.Repositories.Reservation
use inventory_reservation_or.Repositories.Reservation.{add_unless}
use inventory_reservation_or.Services.Inventory.{reserve}
use inventory_reservation_or.Services.Orders.Create.{
  create_reservations, Progress, reserve_in, reserve_line, reserve_lines,
}
use inventory_reservation_or.Frames.{Rest, rest, Frame, frame, reserve-frame}
use inventory_reservation_or.Stock.{IsConsistent}
use inventory_reservation_or.Stock.Held.{held-append}
use inventory_reservation_or.Stock.Books.Reserve.{reserve-IsConsistent}

-- The loop's invariant: the books agree with what is reserved so far, and all else is as it was.
abbrev pub InLoop : Frame → Progress → Session → Type 0
InLoop start acc s = IsConsistent acc.reservations s.tables × (frame s ≡ start)

abbrev pub Unchanged : Frame → Session → Type 0
Unchanged start s = frame s ≡ start

reserve-done :
    (p w : Uid) (q : ℕ) (o : Uid) (s : Session)
    → (reserve p w q o s).0 ≡ (Inventory.try_reserve p w q s).0
unfolding reserve
reserve-done p w q o s = ground arith

module _ (start : Frame) (order_id : Uid) (expires_at : Time) where
  reserve_in-InLoop :
      (line : OrderItemRequest) (product : Product) (best : Option Inventory) (acc : Progress)
      (s : Session)
      → InLoop start acc s
      → Ensures
          (InLoop start)
          (Unchanged start)
          (reserve_in order_id expires_at line product best acc s)
  unfolding reserve_in
  reserve_in-InLoop line product none acc s h = h.1
  reserve_in-InLoop line product (some best) acc s h =
      let p = line.product_id in
      let w = best.warehouse_id in
      let q = line.quantity in
      let same = reserve-frame p w q order_id s ∙ h.1 in
      elim (Bool-cases (reserve p w q order_id s).0) [
        | inl done ↦ rw done (
          reserve-IsConsistent p w q order_id s h.0
              (λ p' w'. rw (held-append p' w' acc.reservations) (omega arith))
              (sym (reserve-done p w q order_id s) ∙ done),
          same,
        )
        | inr refused ↦ rw refused same
      ]

  reserve_line-InLoop :
      (products : List Product) (line : OrderItemRequest) (acc : Progress) (s : Session)
      → InLoop start acc s
      → Ensures
          (InLoop start)
          (Unchanged start)
          (reserve_line products order_id expires_at line acc s)
  unfolding reserve_line
  reserve_line-InLoop products line acc s h =
      elim (Option-cases (find (λ p. p.id == line.product_id) products)) [
        | inl missing ↦ rw missing h.1
        | inr (product, e) ↦ rw e (reserve_in-InLoop line product _ acc s h)
      ]

  -- The loop keeps the invariant to its end, or raises with all else as it was.
  pub reserve_lines-InLoop :
      (products : List Product) (lines : List OrderItemRequest) (acc : Progress) (s : Session)
      → InLoop start acc s
      → Ensures
          (InLoop start)
          (Unchanged start)
          (reserve_lines products order_id expires_at lines acc s)
  unfolding reserve_lines
  reserve_lines-InLoop products [] acc s h = h
  reserve_lines-InLoop products (line ∷ lines) acc s h =
      bind-Ensures (InLoop start) (InLoop start) (Unchanged start)
        (reserve_line products order_id expires_at line acc)
        (reserve_lines products order_id expires_at lines) s
        (reserve_line-InLoop products line acc s h)
        (λ acc' s' h'. reserve_lines-InLoop products lines acc' s' h')

-- The reservations are written one by one: from pending to active.
abbrev pub Written : Rest → List InventoryReservation → Session → Type 0
Written start pending s = IsConsistent pending s.tables × (rest s ≡ start)

module _ (start : Rest) where
  add_unless-Written :
      (r : InventoryReservation) (rows : List InventoryReservation) (s : Session)
      → Written start (r ∷ rows) s
      → (found : Option InventoryReservation)
      → find (λ x. x.id == r.id) s.tables.reservations ≡ found
      → Ensures (λ _. Written start rows) (λ s'. rest s' ≡ start) (add_unless r found s)
  add_unless-Written r rows s h (some x) taken = h.1
  add_unless-Written r rows s h none new = (
    record {
      unique_rows = h.0.unique_rows;
      unique_ids = (new, h.0.unique_ids);
      balance = λ p w. omega (arith, h.0.balance p w);
      explained = h.0.explained;
    },
    h.1,
  )

  pub create_reservations-Written :
      (rows : List InventoryReservation) (s : Session)
      → Written start rows s
      → Ensures (λ _. Written start []) (λ s'. rest s' ≡ start) (create_reservations rows s)
  unfolding create_reservations Reservation.create
  create_reservations-Written [] s h = h
  create_reservations-Written (r ∷ rows) s h =
      bind-Ensures (λ _. Written start rows) (λ _. Written start []) (λ s'. rest s' ≡ start)
        (Reservation.create r) (λ _. create_reservations rows) s
        (add_unless-Written r rows s h _ refl) (λ _ s' h'. create_reservations-Written rows s' h')
