-- ===== src/Lifecycle/Statuses/Place.antt =====
-- The orders over the placing of one in `create_order` of src/services/order_service.py.

use inventory_reservation_or.Prelude.{
  ℕ, ◌+◌, String, fit, Option-cases, ◌≡◌, refl, ap, ◌∙◌, Option, none, some, List, [], ◌∷◌, ◌==◌,
  arith, Bool-cases, Option-cases, ◌⊎◌, inl, inr,
}
use inventory_reservation_or.Models.{
  Uid, Time, User, Product, Inventory, InventoryReservation, Order, OrderItem, OrderStatus,
  OrderItemRequest, OrderCreateRequest,
}
use inventory_reservation_or.Session.{Session, lift, commit, generate_id, now, ◌>>=◌, ◌>>◌}
use inventory_reservation_or.Session.Ensures.{Ensures, bind-Ensures}
use inventory_reservation_or.Table.{find}
use inventory_reservation_or.Repositories.Order
use inventory_reservation_or.Repositories.Reservation
use inventory_reservation_or.Repositories.Idempotency.{mark_completed}
use inventory_reservation_or.Repositories.Logs.{create_event}
use inventory_reservation_or.Services.Inventory.{reserve}
use inventory_reservation_or.Services.Idempotency.{IdempotencyClaim, complete}
use inventory_reservation_or.Services.Orders.Create.{
  Progress, no_progress, raise_if_missing, reserve_in, reserve_line, reserve_lines,
  create_reservations, announce, store_order, reserve_and_store, new_order, place_order,
}
use inventory_reservation_or.Frames.{Frame, reserve-frame}
use inventory_reservation_or.Lifecycle.Statuses.{row_of}

abbrev pub Any : Session → Type 0
Any s = Unit

module _ (rows : List Order) where
  -- The orders are these.
  abbrev pub Has : Session → Type 0
  Has s = s.tables.orders ≡ rows

  -- One order was put before them, or none.
  abbrev pub Placed : Session → Type 0
  Placed s =
      Has s
      ⊎ ((order : Order) × (order.status ≡ OrderStatus.reserved)
          × (row_of order.id rows ≡ none)
          × (s.tables.orders ≡ order ∷ rows))

  module _ (order_id : Uid) (expires_at : Time) where
    reserve_in-Has :
        (line : OrderItemRequest) (product : Product) (best : Option Inventory) (acc : Progress)
        (s : Session)
        → Has s
        → Ensures (λ _. Has) Any (reserve_in order_id expires_at line product best acc s)
    unfolding reserve_in
    reserve_in-Has line product none acc s h = tt
    reserve_in-Has line product (some best) acc s h =
        let same = reserve-frame line.product_id best.warehouse_id line.quantity order_id s in
        elim (Bool-cases (reserve line.product_id best.warehouse_id line.quantity order_id s).0) [
          | inl done ↦ rw done (ap (λ (f : Frame). f.0.1) same ∙ h)
          | inr refused ↦ rw refused tt
        ]

    reserve_line-Has :
        (products : List Product) (line : OrderItemRequest) (acc : Progress) (s : Session)
        → Has s
        → Ensures (λ _. Has) Any (reserve_line products order_id expires_at line acc s)
    unfolding reserve_line
    reserve_line-Has products line acc s h =
        elim (Option-cases (find (λ p. p.id == line.product_id) products)) [
          | inl missing ↦ rw missing tt
          | inr (product, e) ↦ rw e (reserve_in-Has line product _ acc s h)
        ]

    reserve_lines-Has :
        (products : List Product) (lines : List OrderItemRequest) (acc : Progress) (s : Session)
        → Has s
        → Ensures (λ _. Has) Any (reserve_lines products order_id expires_at lines acc s)
    unfolding reserve_lines
    reserve_lines-Has products [] acc s h = h
    reserve_lines-Has products (line ∷ lines) acc s h =
        bind-Ensures (λ _. Has) (λ _. Has) Any (reserve_line products order_id expires_at line acc)
          (reserve_lines products order_id expires_at lines) s
          (reserve_line-Has products line acc s h)
          (λ acc' s' h'. reserve_lines-Has products lines acc' s' h')

  unclashed :
      (order : Order) (rs : List Order)
      → find (Order.clashes order) rs ≡ none
      → row_of order.id rs ≡ none
  unfolding find
  unclashed order [] h = refl
  unclashed order (o ∷ os) h = elim (Bool-cases (o.id == order.id)) [
    | inl e ↦ let k = rw e at h in cc
    | inr n ↦ ground (arith, unclashed order os)
  ]

  add_unless-Placed :
      (order : Order) (items : List OrderItem) (found : Option Order) (s : Session)
      → order.status ≡ OrderStatus.reserved
      → find (Order.clashes order) s.tables.orders ≡ found
      → Has s
      → Ensures (λ _. Placed) Any (Order.add_unless order items found s)
  add_unless-Placed order items (some o) s r e h = tt
  add_unless-Placed order items none s r e h =
      inr (order, r, unclashed order rows (rw h at e), ap (λ (os : List Order). order ∷ os) h)

  create-Placed :
      (order : Order) (items : List OrderItem) (s : Session)
      → order.status ≡ OrderStatus.reserved
      → Has s
      → Ensures (λ _. Placed) Any (Order.create order items s)
  unfolding Order.create
  create-Placed order items s r h = elim (Option-cases (fit 32 order.payment_token)) [
    | inl long ↦ rw long tt
    | inr (token, fits) ↦
        rw fits (add_unless-Placed (record order { payment_token = token }) items _ s r refl h)
  ]

  reservation-Placed :
      (r : InventoryReservation) (found : Option InventoryReservation) (s : Session)
      → Placed s
      → Ensures (λ _. Placed) Any (Reservation.add_unless r found s)
  reservation-Placed r (some x) s h = tt
  reservation-Placed r none s h = h

  create_reservations-Placed :
      (rs : List InventoryReservation) (s : Session)
      → Placed s
      → Ensures (λ _. Placed) Any (create_reservations rs s)
  unfolding create_reservations Reservation.create
  create_reservations-Placed [] s h = h
  create_reservations-Placed (r ∷ rs) s h =
      bind-Ensures (λ _. Placed) (λ _. Placed) Any (Reservation.create r)
        (λ _. create_reservations rs) s (reservation-Placed r _ s h)
        (λ _ s' h'. create_reservations-Placed rs s' h')

  announce-Placed :
      (order : Order) (progress : Progress) (claim : Option IdempotencyClaim) (s : Session)
      → Placed s
      → Ensures (λ _. Placed) Any (announce order progress claim s)
  unfolding announce create_event commit complete mark_completed
  announce-Placed order progress none s h = h
  announce-Placed order progress (some claim) s h = h

  store_order-Placed :
      (order : Order) (progress : Progress) (claim : Option IdempotencyClaim) (s : Session)
      → order.status ≡ OrderStatus.reserved
      → Has s
      → Ensures (λ _. Placed) Any (store_order order progress claim s)
  unfolding store_order
  store_order-Placed order progress claim s r h =
      bind-Ensures (λ _. Placed) (λ _. Placed) Any (Order.create order progress.order_items)
        (λ _. create_reservations progress.reservations >> announce order progress claim) s
        (create-Placed order progress.order_items s r h)
        λ _ s₁ h₁.
          bind-Ensures (λ _. Placed) (λ _. Placed) Any (create_reservations progress.reservations)
            (λ _. announce order progress claim) s₁
            (create_reservations-Placed progress.reservations s₁ h₁)
            (λ _ s₂ h₂. announce-Placed order progress claim s₂ h₂)

  module _ (timeout : ℕ) (payload : OrderCreateRequest) (user : User) where
    reserve_and_store-Placed :
        (key : Option String) (claim : Option IdempotencyClaim) (products : List Product)
        (s : Session)
        → Has s
        → Ensures (λ _. Placed) Any (reserve_and_store timeout payload user key claim products s)
    unfolding reserve_and_store generate_id now
    reserve_and_store-Placed key claim products s h =
        let order_id = (generate_id s).0 in
        let s₁ = (now (generate_id s).1).1 in
        let expires_at = (now (generate_id s).1).0 + timeout in
        bind-Ensures (λ _. Has) (λ _. Placed) Any
          (reserve_lines products order_id expires_at payload.items no_progress)
          (λ progress. do
            created_at ← lift now
            store_order (new_order order_id payload user key progress.total created_at) progress
                claim)
          s₁ (reserve_lines-Has order_id expires_at products payload.items no_progress s₁ h)
          (λ progress s₂ h₂.
            store_order-Placed
              (new_order (generate_id s).0 payload user key progress.total (now s₂).0) progress
              claim (now s₂).1 refl h₂)

    missing-Placed :
        (key : Option String) (claim : Option IdempotencyClaim) (products : List Product)
        (ids : List Uid) (s : Session)
        → Has s
        → Ensures
            (λ _. Placed)
            Any
            ((raise_if_missing ids >> reserve_and_store timeout payload user key claim products) s)
    missing-Placed key claim products [] s h = reserve_and_store-Placed key claim products s h
    missing-Placed key claim products (id ∷ ids) s h = tt

    pub place_order-Placed :
        (key : Option String) (claim : Option IdempotencyClaim) (s : Session)
        → Has s
        → Ensures (λ _. Placed) Any (place_order timeout payload user key claim s)
    unfolding place_order
    place_order-Placed key claim s h = missing-Placed key claim _ _ s h
