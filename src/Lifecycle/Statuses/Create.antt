-- ===== src/Lifecycle/Statuses/Create.antt =====
-- The statuses of all orders over `create_order` of src/services/order_service.py.
use text.Mathlib.Text.{◌==◌ as str_eq}
use inventory_reservation_or.Prelude.{
  ℕ, String, ◌≡◌, refl, false, Option, none, some, List, ◌==◌, arith, Bool-cases, Option-cases, inl,
  inr,
}
use inventory_reservation_or.Models.{
  Uid, User, Order, OrderCreateRequest, OrderResponse, IdempotencyKey, IdempotencyStatus,
}
use inventory_reservation_or.Session.{Session, Result, ok, err, commit, rolling_back}
use inventory_reservation_or.Session.Ensures.{Ensures, bind-Ensures}
use inventory_reservation_or.Table.{find}
use inventory_reservation_or.Repositories.Idempotency.{
  claim_unless, new_entry, try_claim, get_for_update,
}
use inventory_reservation_or.Services.Idempotency.{IdempotencyClaim, begin, join, settle}
use inventory_reservation_or.Services.Orders.Create.{answer, create_order_impl, create_order}
use inventory_reservation_or.Stock.Books.Valid.{IsValid}
use inventory_reservation_or.Stock.Books.Place.{CreateEffect, create_order_atomic}
use inventory_reservation_or.Lifecycle.Statuses.{Moves, stays, placed, row_of, status_in, status_at}
use inventory_reservation_or.Lifecycle.Statuses.Place.{Any, Has, Placed, place_order-Placed}

module _ (rows : List Order) where
  module _ (timeout : ℕ) (payload : OrderCreateRequest) (user : User) where
    answer-Placed :
        (key : String) (claim : IdempotencyClaim) (cached : Option OrderResponse) (s : Session)
        → Has rows s
        → Ensures (λ _. Placed rows) Any (answer timeout payload user key claim cached s)
    unfolding answer commit
    answer-Placed key claim (some response) s h = inl h
    answer-Placed key claim none s h =
        place_order-Placed rows timeout payload user (some key) (some claim) s h

    settle-Has :
        (key : String) (existing : IdempotencyKey) (status : IdempotencyStatus) (s : Session)
        → Has rows s
        → Ensures (λ _. Has rows) Any (settle key existing status s)
    unfolding settle
    settle-Has key existing IdempotencyStatus.completed s h = h
    settle-Has key existing IdempotencyStatus.in_progress s h = tt

    join-Has :
        (key request_hash : String) (entry : Option IdempotencyKey) (s : Session)
        → Has rows s
        → Ensures (λ _. Has rows) Any (join key request_hash entry s)
    unfolding join
    join-Has key request_hash (some entry) s h = h
    join-Has key request_hash none s h = elim (Option-cases (get_for_update key s)) [
      | inl missing ↦ rw missing tt
      | inr (existing, e) ↦ elim (Bool-cases (str_eq existing.request_hash request_hash)) [
        | inl same ↦ rw (e, same) (settle-Has key existing existing.status s h)
        | inr other ↦ rw (e, other) tt
      ]
    ]

    claimed-Has :
        (key request_hash : String) (found : Option IdempotencyKey) (s : Session)
        → Has rows s
        → let (entry, s') = claim_unless (new_entry key request_hash) found s in
          Ensures (λ _. Has rows) Any (join key request_hash entry s')
    claimed-Has key request_hash none s h =
        let (entry, s') = claim_unless (new_entry key request_hash) none s in
        join-Has key request_hash entry s' h
    claimed-Has key request_hash (some taken) s h = join-Has key request_hash none s h

    begin-Has :
        (key request_hash : String) (s : Session)
        → Has rows s
        → Ensures (λ _. Has rows) Any (begin key request_hash s)
    unfolding begin try_claim
    begin-Has key request_hash s h = claimed-Has key request_hash (get_for_update key s) s h

    create_order_impl-Placed :
        (request_hash : OrderCreateRequest → String) (key : Option String) (s : Session)
        → Has rows s
        → Ensures (λ _. Placed rows) Any (create_order_impl request_hash timeout payload user key s)
    unfolding create_order_impl
    create_order_impl-Placed request_hash none s h =
        place_order-Placed rows timeout payload user none none s h
    create_order_impl-Placed request_hash (some key) s h = elim (Bool-cases (str_eq key "")) [
      | inl empty ↦ rw empty (place_order-Placed rows timeout payload user (some key) none s h)
      | inr given ↦ rw given (
          bind-Ensures (λ _. Has rows) (λ _. Placed rows) Any (begin key (request_hash payload))
            (λ claim. answer timeout payload user key claim claim.cached_response) s
            (begin-Has key (request_hash payload) s h)
            (λ claim s' h'. answer-Placed key claim claim.cached_response s' h'))
    ]

    rolling_back-Placed :
        (out : Result OrderResponse × Session)
        → Ensures (λ _. Placed rows) Any out
        → Ensures (λ _. Placed rows) Any (rolling_back out)
    unfolding rolling_back
    rolling_back-Placed (ok response, s) h = h
    rolling_back-Placed (err e, s) h = tt

  -- The new order was not stored before, and all others are as they were.
  Placed-Moves :
      (id : Uid) (s : Session) → Placed rows s → Moves false (status_in id rows) (status_at id s)
  unfolding find
  Placed-Moves id s (inl same) = rw same stays
  Placed-Moves id s (inr (order, r, absent, same)) = elim (Bool-cases (order.id == id)) [
    | inl e ↦
        let same_id : order.id ≡ id = ground arith in
        let absent' : row_of id rows ≡ none = rw (← same_id) absent in
        rw (same, e, absent', r) placed
    | inr n ↦ rw (same, n) stays
  ]

created-Moves :
    (id : Uid) (s : Session) (out : Result OrderResponse × Session)
    → Ensures (λ _. Placed s.tables.orders) Any out
    → CreateEffect s out
    → Moves false (status_at id s) (status_at id out.1)
created-Moves id s (ok response, s') h k = Placed-Moves s.tables.orders id s' h
created-Moves id s (err e, s') h k = rw k.0 stays

pub create_order-Moves :
    (request_hash : OrderCreateRequest → String) (timeout : ℕ) (payload : OrderCreateRequest)
    (user : User) (key : Option String) (s : Session) (id : Uid)
    → IsValid s
    → Moves false
        (status_at id s)
        (status_at id (create_order request_hash timeout payload user key s).1)
unfolding create_order
create_order-Moves request_hash timeout payload user key s id v =
    created-Moves id s _
      (rolling_back-Placed s.tables.orders timeout payload user _
        (create_order_impl-Placed s.tables.orders timeout payload user request_hash key s refl))
      (create_order_atomic request_hash timeout payload user key s v)
