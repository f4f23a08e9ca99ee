-- ===== src/Workers/Relay.antt =====
-- One round of src/workers/outbox_relay.py. What the message broker does with a task is a
-- parameter: it takes it, or raises. A task that it took stays taken after a rollback.
pub mod Marks
pub mod Round
use text.Mathlib.Text.{◌==◌ as str_eq}
use inventory_reservation_or.Prelude.{
  ℕ, String, ◌≡◌, refl, ap, ◌∙◌, Option, none, some, List, [], ◌∷◌, ◌++◌, if◌then◌else◌,
}
use inventory_reservation_or.Prelude.Lists.{length}
use inventory_reservation_or.Models.{Uid, Payload, OutboxEvent}
use inventory_reservation_or.Session.{
  Session, Tables, Result, ok, err, Error, key_error, commit, rollback, now,
}
use inventory_reservation_or.Repositories.Logs.{claim_pending_batch, mark_published}

-- The calls of `delay` on the two Celery tasks.
pub data Task : Type 0 where
  process_order_task : Uid → Task
  notify_low_stock_task : Payload → Task

-- payload["order_id"]
abbrev pub order_task : Payload → Result Task
order_task (Payload.order_payload order_id) = ok (Task.process_order_task order_id)
order_task _ = err key_error

-- `_HANDLERS.get(event_type)`, applied to the payload
unfoldable pub handler : String → Payload → Option (Result Task)
handler event_type payload =
    if str_eq event_type "ORDER_RESERVED"
    then some (order_task payload)
    else if str_eq event_type "LOW_STOCK_ALERT_CREATED"
    then some (ok (Task.notify_low_stock_task payload))
    else none

abbrev pub relay_batch_size : ℕ
relay_batch_size = 50

module _ (delay : Task → Option Error) where
  abbrev pub Relayed : Type 0 → Type 0
  Relayed A = Result A × List Task × Session

  -- The task is handed over, and its event marked.
  abbrev pub hand_over : Uid → Task → Option Error → Session → Relayed (Unit {0})
  hand_over event_id task (some e) s = (err e, [], s)
  hand_over event_id task none s = let (_, s') = mark_published event_id s in (ok tt, task ∷ [], s')

  abbrev pub publish : Uid → Option (Result Task) → Session → Relayed (Unit {0})
  publish event_id none s = (ok tt, [], s)
  publish event_id (some (err e)) s = (err e, [], s)
  publish event_id (some (ok task)) s = hand_over event_id task (delay task) s

  -- The rest of the loop, after one event.
  abbrev pub go_on : Relayed (Unit {0}) → (Session → Relayed (Unit {0})) → Relayed (Unit {0})
  go_on (err e, sent, s) rest = (err e, sent, s)
  go_on (ok _, sent, s) rest = let (r, later, s') = rest s in (r, sent ++ later, s')

  unfoldable pub publish_all : List OutboxEvent → Session → Relayed (Unit {0})
  publish_all [] s = (ok tt, [], s)
  publish_all (e ∷ events) s =
      go_on (publish e.id (handler e.event_type e.payload) s) (publish_all events)

  abbrev pub finish_relay : ℕ → Relayed (Unit {0}) → Relayed ℕ
  finish_relay n (ok _, sent, s) = let (_, s') = commit s in (ok n, sent, s')
  finish_relay n (err e, sent, s) = (err e, sent, rollback s)

  unfoldable pub relay_once : Session → Relayed ℕ
  unfolding claim_pending_batch publish_all
  relay_once s =
      let events = claim_pending_batch relay_batch_size s in
      finish_relay (length events) (publish_all events s)
