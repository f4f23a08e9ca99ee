-- ===== src/Lifecycle/Claimed.antt =====
-- What `create_order` of src/services/order_service.py stores with an Idempotency-Key.
use text.Mathlib.Text.{◌==◌ as str_eq}
use text.Mathlib.TextPositions.{eq_refl}
use inventory_reservation_or.Prelude.{
  fit, Option-cases, inl, inr, ℕ, ◌+◌, String, ◌≡◌, refl, ap, Option, none, some, List, [], ◌∷◌,
}
use inventory_reservation_or.Models.{
  Uid, Payload, User, Product, Order, OrderItem, OrderResponse, OrderCreateRequest,
  InventoryReservation, IdempotencyKey, IdempotencyStatus,
}
use inventory_reservation_or.Session.{Session, commit, generate_id, now, ◌>>=◌, ◌>>◌, lift}
use inventory_reservation_or.Session.Ensures.{Ensures, bind-Ensures, Ensures-weaken}
use inventory_reservation_or.Table.{find}
use inventory_reservation_or.Table.Laws.{find-update_where}
use inventory_reservation_or.Repositories.Order
use inventory_reservation_or.Repositories.Reservation
use inventory_reservation_or.Repositories.Logs.{create_event}
use inventory_reservation_or.Repositories.Idempotency.{get_for_update, mark_completed}
use inventory_reservation_or.Services.Idempotency.{IdempotencyClaim, complete}
use inventory_reservation_or.Services.Orders.Create.{
  serialize_order, Progress, no_progress, raise_if_missing, reserve_lines, create_reservations,
  announce, store_order, reserve_and_store, new_order, place_order,
}
use inventory_reservation_or.Frames.{Frame, frame}
use inventory_reservation_or.Stock.{IsConsistent}
use inventory_reservation_or.Stock.Books.Create.{InLoop, Unchanged, reserve_lines-InLoop}
use inventory_reservation_or.Lifecycle.Replay.{Stored}

-- What a failed transaction leaves is of no concern here.
abbrev pub Any : Session → Type 0
Any s = Unit

module _ (key request_hash : String) (entry : IdempotencyKey) where
  abbrev pub Keyed : List IdempotencyKey → Type 0
  Keyed rows = find (λ e. str_eq e.key key) rows ≡ some entry

  abbrev pub IsOwn : Type 0
  IsOwn = (entry.key ≡ key) × (entry.request_hash ≡ request_hash)

  abbrev HasStored : OrderResponse → Session → Type 0
  HasStored response s = Stored key request_hash response s

  -- The key's row, once its claim is completed.
  complete-Stored :
      (order_id : Uid) (response : OrderResponse) (s : Session)
      → IsOwn
      → Keyed s.tables.idempotency_keys
      → HasStored response (complete entry order_id response s).1
  unfolding complete mark_completed get_for_update
  complete-Stored order_id response s own e = record {
    entry = record entry {
      status = IdempotencyStatus.completed;
      order_id = some order_id;
      response_body = some response;
    };
    found =
        rw
          (
            find-update_where (λ e. str_eq e.key key) (λ e. str_eq e.key entry.key)
                (λ e. record e {
                  status = IdempotencyStatus.completed;
                  order_id = some order_id;
                  response_body = some response;
                })
                (λ r. refl) s.tables.idempotency_keys,
            e,
            eq_refl entry.key,
          )
          refl;
    same_request = own.1;
    is_completed = refl;
    answered = refl;
  }

  abbrev claim : IdempotencyClaim
  claim = record { entry = entry; cached_response = none }

  commit-Stored :
      (response : OrderResponse) (s : Session)
      → HasStored response s
      → HasStored response (commit s).1
  unfolding commit get_for_update
  commit-Stored response s k = record {
    entry = k.entry;
    found = k.found;
    same_request = k.same_request;
    is_completed = k.is_completed;
    answered = k.answered;
  }

  announce-Stored :
      (order : Order) (progress : Progress) (s : Session)
      → IsOwn
      → Keyed s.tables.idempotency_keys
      → Ensures HasStored Any (announce order progress (some claim) s)
  unfolding announce create_event
  announce-Stored order progress s own e =
      let s₁ =
        (create_event "order" order.id "ORDER_RESERVED" (Payload.order_payload order.id) s).1 in
      let response = serialize_order order progress.order_items in
      commit-Stored response (complete entry order.id response s₁).1
        (complete-Stored order.id response s₁ own e)

  abbrev StillKeyed : Session → Type 0
  StillKeyed s = Keyed s.tables.idempotency_keys

  add_unless-Keyed :
      (order : Order) (items : List OrderItem) (found : Option Order) (s : Session)
      → StillKeyed s
      → Ensures (λ _. StillKeyed) Any (Order.add_unless order items found s)
  add_unless-Keyed order items (some o) s h = tt
  add_unless-Keyed order items none s h = h

  create-Keyed :
      (order : Order) (items : List OrderItem) (s : Session)
      → StillKeyed s
      → Ensures (λ _. StillKeyed) Any (Order.create order items s)
  unfolding Order.create
  create-Keyed order items s h = elim (Option-cases (fit 32 order.payment_token)) [
    | inl long ↦ rw long tt
    | inr (token, fits) ↦
        rw fits (add_unless-Keyed (record order { payment_token = token }) items _ s h)
  ]

  reservation-Keyed :
      (r : InventoryReservation) (found : Option InventoryReservation) (s : Session)
      → StillKeyed s
      → Ensures (λ _. StillKeyed) Any (Reservation.add_unless r found s)
  reservation-Keyed r (some x) s h = tt
  reservation-Keyed r none s h = h

  create_reservations-Keyed :
      (rows : List InventoryReservation) (s : Session)
      → StillKeyed s
      → Ensures (λ _. StillKeyed) Any (create_reservations rows s)
  unfolding create_reservations Reservation.create
  create_reservations-Keyed [] s h = h
  create_reservations-Keyed (r ∷ rows) s h =
      bind-Ensures (λ _. StillKeyed) (λ _. StillKeyed) Any (Reservation.create r)
        (λ _. create_reservations rows) s (reservation-Keyed r _ s h)
        (λ _ s' h'. create_reservations-Keyed rows s' h')

  store_order-Stored :
      (order : Order) (progress : Progress) (s : Session)
      → IsOwn
      → StillKeyed s
      → Ensures HasStored Any (store_order order progress (some claim) s)
  unfolding store_order
  store_order-Stored order progress s own h =
      bind-Ensures (λ _. StillKeyed) HasStored Any (Order.create order progress.order_items)
        (λ _. create_reservations progress.reservations >> announce order progress (some claim)) s
        (create-Keyed order progress.order_items s h)
        λ _ s₁ h₁.
          bind-Ensures (λ _. StillKeyed) HasStored Any (create_reservations progress.reservations)
            (λ _. announce order progress (some claim)) s₁
            (create_reservations-Keyed progress.reservations s₁ h₁)
            (λ _ s₂ h₂. announce-Stored order progress s₂ own h₂)

  module _ (timeout : ℕ) (payload : OrderCreateRequest) (user : User) (header : Option String) where
    reserve_and_store-Stored :
        (products : List Product) (s : Session)
        → IsOwn
        → IsConsistent [] s.tables
        → StillKeyed s
        → Ensures HasStored Any
            (reserve_and_store timeout payload user header (some claim) products s)
    unfolding reserve_and_store
    reserve_and_store-Stored products s own h e =
        let order_id = (generate_id s).0 in
        let s₁ = (now (generate_id s).1).1 in
        let expires_at = (now (generate_id s).1).0 + timeout in
        bind-Ensures (InLoop (frame s)) HasStored Any
          (reserve_lines products order_id expires_at payload.items no_progress)
          (λ progress. do
            created_at ← lift now
            store_order (new_order order_id payload user header progress.total created_at) progress
                (some claim))
          s₁
          (Ensures-weaken (InLoop (frame s)) (InLoop (frame s)) (Unchanged (frame s)) Any _
            (λ _ _ k. k) (λ s' same. tt)
            (reserve_lines-InLoop (frame s) order_id expires_at products payload.items no_progress
              s₁ (h, refl)))
          λ progress s₂ k.
            let same : s₂.tables.idempotency_keys ≡ s.tables.idempotency_keys =
              ap (λ (f : Frame). f.0.5) k.1 in
            store_order-Stored
              (new_order (generate_id s).0 payload user header progress.total (now s₂).0) progress
              (now s₂).1 own (rw same e)

    missing-Stored :
        (products : List Product) (ids : List Uid) (s : Session)
        → IsOwn
        → IsConsistent [] s.tables
        → StillKeyed s
        → Ensures HasStored Any (
            (raise_if_missing ids
                >> reserve_and_store timeout payload user header (some claim) products)
              s)
    missing-Stored products [] s own h e = reserve_and_store-Stored products s own h e
    missing-Stored products (id ∷ ids) s own h e = tt

    pub place_order-Stored :
        (s : Session)
        → IsOwn
        → IsConsistent [] s.tables
        → StillKeyed s
        → Ensures HasStored Any (place_order timeout payload user header (some claim) s)
    unfolding place_order
    place_order-Stored s own h e = missing-Stored _ _ s own h e
