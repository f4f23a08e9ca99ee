-- ===== src/Stock/Books/Place.antt =====
-- `create_order` of src/services/order_service.py as a whole, and the books.
use text.Mathlib.Text.{◌==◌ as str_eq}
use inventory_reservation_or.Prelude.{
  fit, Option-cases, ℕ, ◌+◌, String, ◌≡◌, refl, ap, sym, ◌∙◌, Option, none, some, List, [], ◌∷◌,
  Bool-cases, Option-cases, inl, inr,
}
use inventory_reservation_or.Models.{
  Uid, User, Order, OrderResponse, OrderCreateRequest, OrderItem, InventoryReservation, Product,
  IdempotencyKey, IdempotencyStatus,
}
use inventory_reservation_or.Session.{
  Session, Tables, Result, ok, err, commit, rolling_back, generate_id, now, ◌>>=◌, ◌>>◌, lift,
}
use inventory_reservation_or.Session.Ensures.{Ensures, bind-Ensures, Ensures-weaken}
use inventory_reservation_or.Repositories.Order
use inventory_reservation_or.Services.Idempotency.{IdempotencyClaim, begin, join, settle, complete}
use inventory_reservation_or.Repositories.Idempotency.{
  get_for_update, try_claim, new_entry, claim_unless,
}
use inventory_reservation_or.Services.Orders.Create.{
  Progress, no_progress, raise_if_missing, reserve_lines, create_reservations, announce,
  store_order, reserve_and_store, new_order, place_order, answer, create_order, create_order_impl,
}
use inventory_reservation_or.Frames.{Rest, rest, Frame, frame}
use inventory_reservation_or.Stock.{IsConsistent}
use inventory_reservation_or.Stock.Books.Valid.{IsValid}
use inventory_reservation_or.Stock.Books.Create.{
  InLoop, Unchanged, reserve_lines-InLoop, Written, create_reservations-Written,
}

module _ (c : Tables) where
  -- In the open transaction: the books agree with `pending`, and the committed tables are still `c`.
  abbrev Open : List InventoryReservation → Session → Type 0
  Open pending s = IsConsistent pending s.tables × (s.committed ≡ c)

  abbrev StillCommitted : Session → Type 0
  StillCommitted s = s.committed ≡ c

  announce-Ensures :
      (order : Order) (progress : Progress) (claim : Option IdempotencyClaim) (s : Session)
      → IsConsistent [] s.tables
      → Ensures (λ _. IsValid) StillCommitted (announce order progress claim s)
  unfolding announce complete
  announce-Ensures order progress none s h = record { idle = refl; consistent = h }
  announce-Ensures order progress (some claim) s h = record { idle = refl; consistent = h }

  add_unless-Open :
      (order : Order) (items : List OrderItem) (found : Option Order)
      (pending : List InventoryReservation) (s : Session)
      → Open pending s
      → Ensures (λ _. Open pending) StillCommitted (Order.add_unless order items found s)
  add_unless-Open order items (some o) pending s h = h.1
  add_unless-Open order items none pending s h = h

  create-Open :
      (order : Order) (items : List OrderItem) (pending : List InventoryReservation) (s : Session)
      → Open pending s
      → Ensures (λ _. Open pending) StillCommitted (Order.create order items s)
  unfolding Order.create
  create-Open order items pending s h = elim (Option-cases (fit 32 order.payment_token)) [
    | inl long ↦ rw long h.1
    | inr (token, fits) ↦
        rw fits (add_unless-Open (record order { payment_token = token }) items _ pending s h)
  ]

  create_reservations-Open :
      (rows : List InventoryReservation) (s : Session)
      → Open rows s
      → Ensures (λ _. Open []) StillCommitted (create_reservations rows s)
  create_reservations-Open rows s h =
      Ensures-weaken (λ _. Written (rest s) []) (λ _. Open []) (λ s'. rest s' ≡ rest s)
        StillCommitted (create_reservations rows s)
        (λ _ s' w. (w.0, ap (λ (r : Rest). r.0) w.1 ∙ h.1))
        (λ s' same. ap (λ (r : Rest). r.0) same ∙ h.1)
        (create_reservations-Written (rest s) rows s (h.0, refl))

  store_order-Ensures :
      (order : Order) (progress : Progress) (claim : Option IdempotencyClaim) (s : Session)
      → Open progress.reservations s
      → Ensures (λ _. IsValid) StillCommitted (store_order order progress claim s)
  unfolding store_order
  store_order-Ensures order progress claim s h =
      bind-Ensures (λ _. Open progress.reservations) (λ _. IsValid) StillCommitted
        (Order.create order progress.order_items)
        (λ _. create_reservations progress.reservations >> announce order progress claim) s
        (create-Open order progress.order_items progress.reservations s h)
        λ _ s₁ h₁.
          bind-Ensures (λ _. Open []) (λ _. IsValid) StillCommitted
            (create_reservations progress.reservations) (λ _. announce order progress claim) s₁
            (create_reservations-Open progress.reservations s₁ h₁)
            (λ _ s₂ h₂. announce-Ensures order progress claim s₂ h₂.0)

  module _ (timeout : ℕ) (payload : OrderCreateRequest) (user : User) (key : Option String)
      (claim : Option IdempotencyClaim) where
    reserve_and_store-Ensures :
        (products : List Product) (s : Session)
        → Open [] s
        → Ensures
            (λ _. IsValid)
            StillCommitted
            (reserve_and_store timeout payload user key claim products s)
    unfolding reserve_and_store
    reserve_and_store-Ensures products s h =
        let order_id = (generate_id s).0 in
        let s₁ = (now (generate_id s).1).1 in
        let expires_at = (now (generate_id s).1).0 + timeout in
        bind-Ensures (InLoop (frame s)) (λ _. IsValid) StillCommitted
          (reserve_lines products order_id expires_at payload.items no_progress)
          (λ progress. do
            created_at ← lift now
            store_order (new_order order_id payload user key progress.total created_at) progress
                claim)
          s₁
          (Ensures-weaken (InLoop (frame s)) (InLoop (frame s)) (Unchanged (frame s)) StillCommitted
            _ (λ _ _ k. k) (λ s' same. ap (λ (f : Frame). f.0.0) same ∙ h.1)
            (reserve_lines-InLoop (frame s) order_id expires_at products payload.items no_progress
              s₁ (h.0, refl)))
          λ progress s₂ k.
            store_order-Ensures
              (new_order (generate_id s).0 payload user key progress.total (now s₂).0) progress
              claim (now s₂).1 (k.0, ap (λ (f : Frame). f.0.0) k.1 ∙ h.1)

    place_order-missing :
        (products : List Product) (ids : List Uid) (s : Session)
        → Open [] s
        → Ensures
            (λ _. IsValid)
            StillCommitted
            ((raise_if_missing ids >> reserve_and_store timeout payload user key claim products) s)
    place_order-missing products [] s h = reserve_and_store-Ensures products s h
    place_order-missing products (id ∷ ids) s h = h.1

    -- The body of the transaction commits agreeing books, or raises before it has committed.
    pub place_order-Ensures :
        (s : Session)
        → Open [] s
        → Ensures (λ _. IsValid) StillCommitted (place_order timeout payload user key claim s)
    unfolding place_order
    place_order-Ensures s h = place_order-missing _ _ s h

  settle-Open :
      (key : String) (existing : IdempotencyKey) (status : IdempotencyStatus) (s : Session)
      → Open [] s
      → Ensures (λ _. Open []) StillCommitted (settle key existing status s)
  unfolding settle
  settle-Open key existing IdempotencyStatus.completed s h = h
  settle-Open key existing IdempotencyStatus.in_progress s h = h.1

  join-Open :
      (key request_hash : String) (entry : Option IdempotencyKey) (s : Session)
      → Open [] s
      → Ensures (λ _. Open []) StillCommitted (join key request_hash entry s)
  unfolding join
  join-Open key request_hash (some entry) s h = h
  join-Open key request_hash none s h = elim (Option-cases (get_for_update key s)) [
    | inl gone ↦ rw gone h.1
    | inr (existing, e) ↦ elim (Bool-cases (str_eq existing.request_hash request_hash)) [
      | inl same ↦ rw (e, same) (settle-Open key existing existing.status s h)
      | inr other ↦ rw (e, other) h.1
    ]
  ]

  claim_unless-Open :
      (key request_hash : String) (found : Option IdempotencyKey) (s : Session)
      → Open [] s
      → Ensures
          (λ _. Open [])
          StillCommitted
          ((lift (claim_unless (new_entry key request_hash) found) >>= join key request_hash) s)
  unfolding join
  claim_unless-Open key request_hash none s h = h
  claim_unless-Open key request_hash (some existing) s h = join-Open key request_hash none s h

  begin-Open :
      (key request_hash : String) (s : Session)
      → Open [] s
      → Ensures (λ _. Open []) StillCommitted (begin key request_hash s)
  unfolding begin try_claim
  begin-Open key request_hash s h = claim_unless-Open key request_hash (get_for_update key s) s h

  module _ (timeout : ℕ) (payload : OrderCreateRequest) (user : User) where
    answer-Ensures :
        (key : String) (claim : IdempotencyClaim) (cached : Option OrderResponse) (s : Session)
        → Open [] s
        → Ensures (λ _. IsValid) StillCommitted (answer timeout payload user key claim cached s)
    unfolding answer commit
    answer-Ensures key claim (some response) s h = record { idle = refl; consistent = h.0 }
    answer-Ensures key claim none s h =
        place_order-Ensures timeout payload user (some key) (some claim) s h

    pub create_order_impl-Ensures :
        (request_hash : OrderCreateRequest → String) (key : Option String) (s : Session)
        → Open [] s
        → Ensures
            (λ _. IsValid)
            StillCommitted
            (create_order_impl request_hash timeout payload user key s)
    unfolding create_order_impl
    create_order_impl-Ensures request_hash none s h =
        place_order-Ensures timeout payload user none none s h
    create_order_impl-Ensures request_hash (some key) s h = elim (Bool-cases (str_eq key "")) [
      | inl empty ↦ rw empty (place_order-Ensures timeout payload user (some key) none s h)
      | inr given ↦ rw given (
          bind-Ensures (λ _. Open []) (λ _. IsValid) StillCommitted
            (begin key (request_hash payload))
            (λ claim. answer timeout payload user key claim claim.cached_response) s
            (begin-Open key (request_hash payload) s h)
            (λ claim s' h'. answer-Ensures key claim claim.cached_response s' h'))
    ]

-- What a creation leaves behind, by its answer.
abbrev pub CreateEffect : Session → Result OrderResponse × Session → Type 0
CreateEffect s (ok response, s') = IsValid s'
CreateEffect s (err e, s') = (s'.tables ≡ s.tables) × (s'.committed ≡ s.committed)

rolling_back-CreateEffect :
    (s : Session) (out : Result OrderResponse × Session)
    → s.tables ≡ s.committed
    → Ensures (λ _. IsValid) (StillCommitted s.committed) out
    → CreateEffect s (rolling_back out)
unfolding rolling_back
rolling_back-CreateEffect s (ok response, s') idle h = h
rolling_back-CreateEffect s (err e, s') idle h = (h ∙ sym idle, h)

-- From a session with agreeing books and nothing uncommitted, a creation of an order either
-- answers with the order, has committed and leaves the books in agreement, or raises and leaves
-- all tables, and what is committed, as they were.
pub create_order_atomic :
    (request_hash : OrderCreateRequest → String) (timeout : ℕ) (payload : OrderCreateRequest)
    (user : User) (key : Option String) (s : Session)
    → IsValid s
    → CreateEffect s (create_order request_hash timeout payload user key s)
unfolding create_order
create_order_atomic request_hash timeout payload user key s v =
    rolling_back-CreateEffect s _ v.idle (
      create_order_impl-Ensures s.committed timeout payload user request_hash key s
        (v.consistent, refl))
