-- ===== src/Services/Orders/Stored.antt =====
-- What `_create_order_impl` of src/services/order_service.py has stored of an order that it answers.
use inventory_reservation_or.Prelude.{
  ℕ, ◌+◌, String, fit, ==_refl, ◌≡◌, refl, Option, none, some, Option-cases, List, [], ◌∷◌, inl,
  inr,
}
use inventory_reservation_or.Models.{
  Uid, User, Product, InventoryReservation, Order, OrderItem, OrderStatus, OrderCreateRequest,
  OrderResponse, OutboxEvent, OutboxStatus, Payload,
}
use inventory_reservation_or.Session.{
  Session, Result, ok, err, lift, commit, generate_id, now, ◌>>=◌, ◌>>◌,
}
use inventory_reservation_or.Session.Ensures.{Ensures, bind-Ensures}
use inventory_reservation_or.Table.{find}
use inventory_reservation_or.Repositories.Order
use inventory_reservation_or.Repositories.Reservation
use inventory_reservation_or.Repositories.Idempotency.{mark_completed}
use inventory_reservation_or.Repositories.Logs.{create_event}
use inventory_reservation_or.Services.Idempotency.{IdempotencyClaim, complete}
use inventory_reservation_or.Services.Orders.Create.{
  Progress, no_progress, raise_if_missing, reserve_lines, create_reservations, announce,
  store_order, reserve_and_store, new_order, place_order,
}

abbrev Any : Session → Type 0
Any s = Unit

-- The order stands first among the orders, with its token as the column takes it.
abbrev IsFirst : Order → Session → Type 0
IsFirst order s =
    (token : String) × (rest : List Order) × (fit 32 order.payment_token ≡ some token)
    × (s.tables.orders ≡ record order { payment_token = token } ∷ rest)

-- The event that tells the worker of an order.
abbrev pub IsAnnounced : Uid → Session → Type 0
IsAnnounced order_id s =
    (event : OutboxEvent) × (rest : List OutboxEvent) × (s.tables.outbox ≡ event ∷ rest)
    × (event.event_type ≡ "ORDER_RESERVED")
    × (event.payload ≡ Payload.order_payload order_id)
    × (event.status ≡ OutboxStatus.pending)

-- The order of a response as it is stored.
abbrev pub IsRow : OrderCreateRequest → User → Option String → OrderResponse → Order → Type 0
IsRow payload user key response order =
    (order.id ≡ response.id)
    × (order.status ≡ OrderStatus.reserved)
    × (order.total ≡ response.total)
    × (order.created_at ≡ response.created_at)
    × (order.created_by_user_id ≡ user.id)
    × (some order.payment_token ≡ fit 32 payload.payment_token)
    × (order.processing_attempts ≡ 0)
    × (order.idempotency_key ≡ key)

abbrev pub IsStored : OrderCreateRequest → User → Option String → OrderResponse → Session → Type 0
IsStored payload user key response s =
    ((order : Order) × (Order.get_by_id response.id s ≡ some order)
      × IsRow payload user key response order)
    × IsAnnounced response.id s
    × (s.committed ≡ s.tables)

add_unless-IsFirst :
    (order : Order) (token : String) (items : List OrderItem) (found : Option Order) (s : Session)
    → fit 32 order.payment_token ≡ some token
    → Ensures
        (λ _. IsFirst order)
        Any
        (Order.add_unless (record order { payment_token = token }) items found s)
add_unless-IsFirst order token items (some o) s fits = tt
add_unless-IsFirst order token items none s fits = (token, s.tables.orders, fits, refl)

create-IsFirst :
    (order : Order) (items : List OrderItem) (s : Session)
    → Ensures (λ _. IsFirst order) Any (Order.create order items s)
unfolding Order.create
create-IsFirst order items s = elim (Option-cases (fit 32 order.payment_token)) [
  | inl long ↦ rw long tt
  | inr (token, fits) ↦
      let h =
        add_unless-IsFirst order token items
          (find (Order.clashes (record order { payment_token = token })) s.tables.orders) s fits in
      rw fits h
]

module _ (order : Order) where
  reservation-IsFirst :
      (r : InventoryReservation) (found : Option InventoryReservation) (s : Session)
      → IsFirst order s
      → Ensures (λ _. IsFirst order) Any (Reservation.add_unless r found s)
  reservation-IsFirst r (some x) s h = tt
  reservation-IsFirst r none s h = h

  create_reservations-IsFirst :
      (rs : List InventoryReservation) (s : Session)
      → IsFirst order s
      → Ensures (λ _. IsFirst order) Any (create_reservations rs s)
  unfolding create_reservations Reservation.create
  create_reservations-IsFirst [] s h = h
  create_reservations-IsFirst (r ∷ rs) s h =
      bind-Ensures (λ _. IsFirst order) (λ _. IsFirst order) Any (Reservation.create r)
        (λ _. create_reservations rs) s (reservation-IsFirst r _ s h)
        (λ _ s' h'. create_reservations-IsFirst rs s' h')

module _ (timeout : ℕ) (payload : OrderCreateRequest) (user : User) (key : Option String)
    (claim : Option IdempotencyClaim) where
  announce-IsStored :
      (order_id : Uid) (total created_at : ℕ) (progress : Progress)
      (found : Option IdempotencyClaim) (s : Session)
      → IsFirst (new_order order_id payload user key total created_at) s
      → Ensures
          (IsStored payload user key)
          Any
          (announce (new_order order_id payload user key total created_at) progress found s)
  unfolding announce create_event commit complete mark_completed Order.get_by_id find
  announce-IsStored order_id total created_at progress none s (token, rest, fits, first) = (
    (
      record (new_order order_id payload user key total created_at) { payment_token = token },
      rw (first, ==_refl order_id) refl,
      (refl, refl, refl, refl, refl, rw fits refl, refl, refl),
    ),
    (_, s.tables.outbox, refl, refl, refl, refl),
    refl,
  )
  announce-IsStored order_id total created_at progress (some c) s (token, rest, fits, first) = (
    (
      record (new_order order_id payload user key total created_at) { payment_token = token },
      rw (first, ==_refl order_id) refl,
      (refl, refl, refl, refl, refl, rw fits refl, refl, refl),
    ),
    (_, s.tables.outbox, refl, refl, refl, refl),
    refl,
  )

  store_order-IsStored :
      (order_id : Uid) (total created_at : ℕ) (progress : Progress) (s : Session)
      → Ensures
          (IsStored payload user key)
          Any
          (store_order (new_order order_id payload user key total created_at) progress claim s)
  unfolding store_order
  store_order-IsStored order_id total created_at progress s =
      let order = new_order order_id payload user key total created_at in
      bind-Ensures (λ _. IsFirst order) (IsStored payload user key) Any
        (Order.create order progress.order_items)
        (λ _. create_reservations progress.reservations >> announce order progress claim) s
        (create-IsFirst order progress.order_items s)
        λ _ s₁ h₁.
          bind-Ensures (λ _. IsFirst order) (IsStored payload user key) Any
            (create_reservations progress.reservations) (λ _. announce order progress claim) s₁
            (create_reservations-IsFirst order progress.reservations s₁ h₁)
            (λ _ s₂ h₂. announce-IsStored order_id total created_at progress claim s₂ h₂)

  anything : {A : Type 0} (out : Result A × Session) → Ensures (λ _. Any) Any out
  anything (ok a, s) = tt
  anything (err e, s) = tt

  reserve_and_store-IsStored :
      (products : List Product) (s : Session)
      → Ensures
          (IsStored payload user key)
          Any
          (reserve_and_store timeout payload user key claim products s)
  unfolding reserve_and_store generate_id now
  reserve_and_store-IsStored products s =
      let order_id = (generate_id s).0 in
      let s₁ = (now (generate_id s).1).1 in
      let expires_at = (now (generate_id s).1).0 + timeout in
      bind-Ensures (λ _. Any) (IsStored payload user key) Any
        (reserve_lines products order_id expires_at payload.items no_progress)
        (λ progress. do
          created_at ← lift now
          store_order (new_order order_id payload user key progress.total created_at) progress
              claim)
        s₁ (anything (reserve_lines products order_id expires_at payload.items no_progress s₁))
        (λ progress s₂ _.
          store_order-IsStored order_id progress.total (now s₂).0 progress (now s₂).1)

  missing-IsStored :
      (products : List Product) (ids : List Uid) (s : Session)
      → Ensures
          (IsStored payload user key)
          Any
          ((raise_if_missing ids >> reserve_and_store timeout payload user key claim products) s)
  missing-IsStored products [] s = reserve_and_store-IsStored products s
  missing-IsStored products (id ∷ ids) s = tt

  -- An order that is placed and answered has been committed: it is stored under the id of the
  -- response as RESERVED with the response's total and time, the user, the payment token as its
  -- column takes it, the idempotency key that was sent and no attempts, and the newest event of
  -- the outbox is a pending ORDER_RESERVED event for its id.
  pub place_order-IsStored :
      (s : Session)
      → Ensures
          (IsStored payload user key)
          (λ _. Unit)
          (place_order timeout payload user key claim s)
  unfolding place_order
  place_order-IsStored s = missing-IsStored _ _ s
