-- ===== src/Repositories/Idempotency.antt =====
-- src/repositories/idempotency_repository.py. The primary key on `key` decides who owns a key.
use text.Mathlib.Text.{◌==◌ as str_eq}
use inventory_reservation_or.Prelude.{String, Option, none, some, List, ◌∷◌}
use inventory_reservation_or.Models.{Uid, IdempotencyStatus, OrderResponse, IdempotencyKey}
use inventory_reservation_or.Session.{Session, St}
use inventory_reservation_or.Table.{find, update_where}

abbrev pub set_keys : List IdempotencyKey → Session → Session
set_keys rows s = record s { tables = record s.tables { idempotency_keys = rows } }

unfoldable pub get_for_update : String → Session → Option IdempotencyKey
get_for_update key s = find (λ e. str_eq e.key key) s.tables.idempotency_keys

-- The row that a claim inserts.
abbrev pub new_entry : String → String → IdempotencyKey
new_entry key request_hash = record {
  key = key;
  request_hash = request_hash;
  order_id = none;
  status = IdempotencyStatus.in_progress;
  response_body = none;
}

-- INSERT in a savepoint: on a clash only the insert is undone, and the answer is None.
abbrev pub claim_unless : IdempotencyKey → Option IdempotencyKey → St (Option IdempotencyKey)
claim_unless entry (some _) s = (none, s)
claim_unless entry none s = (some entry, set_keys (entry ∷ s.tables.idempotency_keys) s)

unfoldable pub try_claim : String → String → St (Option IdempotencyKey)
unfolding get_for_update
try_claim key request_hash s = claim_unless (new_entry key request_hash) (get_for_update key s) s

unfoldable pub mark_completed : IdempotencyKey → Uid → OrderResponse → St (Unit {0})
mark_completed entry order_id response_body s = (
  tt,
  set_keys
      (update_where (λ e. str_eq e.key entry.key)
        (λ e. record e {
          status = IdempotencyStatus.completed;
          order_id = some order_id;
          response_body = some response_body;
        })
        s.tables.idempotency_keys)
      s,
)
