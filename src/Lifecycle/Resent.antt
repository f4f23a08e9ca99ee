-- ===== src/Lifecycle/Resent.antt =====
-- A request to `create_order` of src/services/order_service.py that is sent again with its
-- Idempotency-Key.
use text.Mathlib.Text.{◌==◌ as str_eq}
use text.Mathlib.TextPositions.{eq_refl}
use text.Mathlib.TextEquality.{eq_iff}
use inventory_reservation_or.Prelude.{
  ℕ, String, ◌≡◌, refl, false, Option, none, some, [], ◌∷◌, Bool-cases, inl, inr,
}
use inventory_reservation_or.Models.{
  User, OrderResponse, OrderCreateRequest, IdempotencyKey, IdempotencyStatus,
}
use inventory_reservation_or.Session.{Session, Result, ok, err, commit, rolling_back, ◌>>=◌, lift}
use inventory_reservation_or.Session.Ensures.{Ensures}
use inventory_reservation_or.Table.{find}
use inventory_reservation_or.Table.Laws.{find_sound}
use inventory_reservation_or.Repositories.Idempotency.{
  get_for_update, try_claim, new_entry, claim_unless,
}
use inventory_reservation_or.Services.Idempotency.{IdempotencyClaim, begin, join, settle}
use inventory_reservation_or.Services.Orders.Create.{answer, create_order, create_order_impl}
use inventory_reservation_or.Stock.{IsConsistent}
use inventory_reservation_or.Stock.Books.Valid.{IsValid}
use inventory_reservation_or.Stock.Books.Place.{CreateEffect, create_order_atomic}
use inventory_reservation_or.Lifecycle.Replay.{Stored, replayed}
use mathlib.Core.Path.{subst}
use inventory_reservation_or.Repositories.Idempotency.{set_keys}
use inventory_reservation_or.Lifecycle.Claimed.{Any, Keyed, IsOwn, place_order-Stored}

module _ (request_hash : OrderCreateRequest → String) (timeout : ℕ) (payload : OrderCreateRequest)
    (user : User) (key : String) where
  abbrev hash : String
  hash = request_hash payload

  abbrev go_on : Result IdempotencyClaim × Session → Result OrderResponse × Session
  go_on out = elim out.0 [
    | ok claim ↦ answer timeout payload user key claim claim.cached_response out.1
    | err e ↦ (err e, out.1)
  ]

  -- An own claim: the order is placed, and the claim completed.
  answer-Stored :
      (entry : IdempotencyKey) (s : Session)
      → IsOwn key hash entry
      → IsConsistent [] s.tables
      → Keyed key hash entry s.tables.idempotency_keys
      → Ensures (Stored key hash) Any (
          answer timeout payload user key (record { entry = entry; cached_response = none }) none s)
  unfolding answer
  answer-Stored entry s own h e =
      place_order-Stored key hash entry timeout payload user (some key) s own h e

  cached-Stored :
      (existing : IdempotencyKey) (cached : Option OrderResponse) (s : Session)
      → existing.response_body ≡ cached
      → existing.status ≡ IdempotencyStatus.completed
      → IsOwn key hash existing
      → IsConsistent [] s.tables
      → get_for_update key s ≡ some existing
      → Ensures (Stored key hash) Any (
          answer timeout payload user key
            (record { entry = existing; cached_response = cached })
            cached
            s)
  unfolding answer commit get_for_update
  cached-Stored existing (some response) s body completed own h e = record {
    entry = existing;
    found = e;
    same_request = own.1;
    is_completed = completed;
    answered = body;
  }
  cached-Stored existing none s body completed own h e = answer-Stored existing s own h e

  settled-Stored :
      (existing : IdempotencyKey) (status : IdempotencyStatus) (s : Session)
      → existing.status ≡ status
      → IsOwn key hash existing
      → IsConsistent [] s.tables
      → get_for_update key s ≡ some existing
      → Ensures (Stored key hash) Any (go_on (settle key existing status s))
  unfolding settle
  settled-Stored existing IdempotencyStatus.completed s is own h e =
      cached-Stored existing existing.response_body s refl is own h e
  settled-Stored existing IdempotencyStatus.in_progress s is own h e = tt

  joined-Stored :
      (existing : IdempotencyKey) (s : Session)
      → IsConsistent [] s.tables
      → get_for_update key s ≡ some existing
      → Ensures (Stored key hash) Any (go_on (join key hash none s))
  unfolding join get_for_update
  joined-Stored existing s h e = elim (Bool-cases (str_eq existing.request_hash hash)) [
    | inl same ↦
        let own : IsOwn key hash existing = (
          (eq_iff existing.key key).0
              (find_sound (λ e. str_eq e.key key) s.tables.idempotency_keys e),
          (eq_iff existing.request_hash hash).0 same,
        ) in
        rw (e, same) (settled-Stored existing existing.status s refl own h e)
    | inr other ↦ rw (e, other) tt
  ]

  begun-Stored :
      (found : Option IdempotencyKey) (s : Session)
      → IsConsistent [] s.tables
      → get_for_update key s ≡ found
      → Ensures
          (Stored key hash)
          Any
          (go_on ((lift (claim_unless (new_entry key hash) found) >>= join key hash) s))
  unfolding join find
  begun-Stored none s h e =
      answer-Stored (new_entry key hash)
        (set_keys (new_entry key hash ∷ s.tables.idempotency_keys) s) (refl, refl) h
        (rw (eq_refl key) refl)
  begun-Stored (some existing) s h e = joined-Stored existing s h e

  create_order_impl-Stored :
      (s : Session)
      → str_eq key "" ≡ false
      → IsConsistent [] s.tables
      → Ensures
          (Stored key hash)
          Any
          (create_order_impl request_hash timeout payload user (some key) s)
  unfolding create_order_impl begin try_claim
  create_order_impl-Stored s given h = rw given (begun-Stored _ s h refl)

  rolled_back-Stored :
      (out : Result OrderResponse × Session) (response : OrderResponse)
      → (rolling_back out).0 ≡ ok response
      → Ensures (Stored key hash) Any out
      → Stored key hash response (rolling_back out).1
  unfolding rolling_back
  rolled_back-Stored (ok r, s') response e h =
      let same : r ≡ response = cc in subst (λ x. Stored key hash x s') same h
  rolled_back-Stored (err x, s') response e h = cc

  IsValid-after :
      (s : Session) (out : Result OrderResponse × Session) (response : OrderResponse)
      → out.0 ≡ ok response
      → CreateEffect s out
      → IsValid out.1
  IsValid-after s (ok r, s') response e h = h
  IsValid-after s (err x, s') response e h = cc

  -- When an order was created with a key that is not empty, from a session with agreeing books and
  -- nothing uncommitted, a later request with the same key and the same request hash, from
  -- whatever user and with whatever timeout, gets the same response and leaves the session as it
  -- was.
  pub create_order_replay :
      (s : Session) (response : OrderResponse) (payload' : OrderCreateRequest) (timeout' : ℕ)
      (user' : User)
      → IsValid s
      → str_eq key "" ≡ false
      → (create_order request_hash timeout payload user (some key) s).0 ≡ ok response
      → request_hash payload' ≡ hash
      → let s' = (create_order request_hash timeout payload user (some key) s).1 in
        create_order request_hash timeout' payload' user' (some key) s' ≡ (ok response, s')
  unfolding create_order
  create_order_replay s response payload' timeout' user' v given e same =
      let out = create_order request_hash timeout payload user (some key) s in
      let valid =
        IsValid-after s out response e
          (create_order_atomic request_hash timeout payload user (some key) s v) in
      replayed key response out.1 request_hash timeout' payload' user' given
        (rw same (
          rolled_back-Stored (create_order_impl request_hash timeout payload user (some key) s)
            response e (create_order_impl-Stored s given v.consistent)))
        valid.idle
