-- ===== src/Services/Idempotency.antt =====
-- src/services/idempotency_service.py. `request_hash` stands for `compute_request_hash` of the
-- request body, which json.dumps and SHA-256 compute.
use text.Mathlib.Text.{◌==◌ as str_eq}
use inventory_reservation_or.Prelude.{String, not, Option, none, some}
use inventory_reservation_or.Models.{Uid, IdempotencyStatus, OrderResponse, IdempotencyKey}
use inventory_reservation_or.Session.{
  St, Action, pure, raise, gets, lift, or_raise, raise_if, ◌>>=◌, ◌>>◌, invalid_request,
  idempotency_conflict,
}
use inventory_reservation_or.Repositories.Idempotency.{try_claim, get_for_update, mark_completed}

pub record IdempotencyClaim : Type 0 where
  pub entry : IdempotencyKey
  pub cached_response : Option OrderResponse

abbrev pub inconsistent_message : String
inconsistent_message = "Idempotency key state is inconsistent, please retry"

abbrev pub other_body_message : String
other_body_message = "This Idempotency-Key was already used with a different request body"

-- What the settled state of somebody's record means for this request.
unfoldable pub settle : String → IdempotencyKey → IdempotencyStatus → Action IdempotencyClaim
settle key existing IdempotencyStatus.completed =
    pure (record { entry = existing; cached_response = existing.response_body })
settle key existing IdempotencyStatus.in_progress = raise (idempotency_conflict key)

unfoldable pub join : String → String → Option IdempotencyKey → Action IdempotencyClaim
unfolding get_for_update settle
join key request_hash (some entry) = pure (record { entry = entry; cached_response = none })
join key request_hash none = do
  existing ← or_raise (← gets (get_for_update key)) (invalid_request inconsistent_message)
  raise_if (not (str_eq existing.request_hash request_hash)) (invalid_request other_body_message)
  settle key existing existing.status

unfoldable pub begin : String → String → Action IdempotencyClaim
unfolding try_claim join
begin key request_hash = do entry ← lift (try_claim key request_hash); join key request_hash entry

unfoldable pub complete : IdempotencyKey → Uid → OrderResponse → St (Unit {0})
unfolding mark_completed
complete entry order_id response_body = mark_completed entry order_id response_body
