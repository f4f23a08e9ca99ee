-- ===== src/Lifecycle/Replay.antt =====
-- A request whose Idempotency-Key is stored already, in src/services/order_service.py and
-- src/services/idempotency_service.py.
use text.Mathlib.Text.{◌==◌ as str_eq}
use text.Mathlib.TextPositions.{eq_refl}
use inventory_reservation_or.Prelude.{ℕ, arith, String, ◌≡◌, ap, ◌∙◌, true, false, none, some}
use inventory_reservation_or.Models.{
  User, OrderResponse, OrderCreateRequest, IdempotencyKey, IdempotencyStatus,
}
use inventory_reservation_or.Session.{Session, Result, ok, err, commit, rolling_back}
use inventory_reservation_or.Repositories.Idempotency.{get_for_update, try_claim}
use inventory_reservation_or.Services.Idempotency.{IdempotencyClaim, begin, join, settle}
use inventory_reservation_or.Services.Orders.Create.{answer, create_order, create_order_impl}

-- The key is stored as completed, for the request with this hash, with this answer.
pub record Stored (key request_hash : String) (response : OrderResponse) (s : Session)
    : Type 0 where
  pub entry : IdempotencyKey
  pub found : get_for_update key s ≡ some entry
  pub same_request : entry.request_hash ≡ request_hash
  pub is_completed : entry.status ≡ IdempotencyStatus.completed
  pub answered : entry.response_body ≡ some response

-- What a failed transaction leaves is of no concern here.
abbrev Any : Session → Type 0
Any s = Unit

-- A request with a stored key gets the stored answer, and only commits.
module _ (key : String) (response : OrderResponse) (s : Session) where
  join-Stored :
      (request_hash : String)
      → (stored : Stored key request_hash response s)
      → join key request_hash none s
        ≡ (ok (record { entry = stored.entry; cached_response = some response }), s)
  unfolding join settle
  join-Stored request_hash stored =
      let e = stored.found in
      let same : str_eq stored.entry.request_hash request_hash ≡ true =
        rw stored.same_request (eq_refl request_hash) in
      let completed = stored.is_completed in
      let answered = stored.answered in ground (arith, e, same, completed, answered)

  begin-Stored :
      (request_hash : String)
      → (stored : Stored key request_hash response s)
      → begin key request_hash s
        ≡ (ok (record { entry = stored.entry; cached_response = some response }), s)
  unfolding begin try_claim
  begin-Stored request_hash stored = rw stored.found (join-Stored request_hash stored)

  pub replayed :
      (request_hash : OrderCreateRequest → String) (timeout : ℕ) (payload : OrderCreateRequest)
      (user : User)
      → str_eq key "" ≡ false
      → Stored key (request_hash payload) response s
      → s.tables ≡ s.committed
      → create_order request_hash timeout payload user (some key) s ≡ (ok response, s)
  unfolding create_order create_order_impl answer rolling_back commit
  replayed request_hash timeout payload user given stored idle =
      let continue : Result IdempotencyClaim × Session → Result OrderResponse × Session = λ out.
        elim out.0 [
          | ok claim ↦ answer timeout payload user key claim claim.cached_response out.1
          | err e ↦ (err e, out.1)
        ] in
      rw given (
        ap (λ (out : Result IdempotencyClaim × Session). rolling_back (continue out))
          (begin-Stored (request_hash payload) stored)
        ∙ λ i. (ok response, record s { committed = idle i }))
