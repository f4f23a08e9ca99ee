-- ===== src/Lifecycle/Statuses/History.antt =====
-- The service as a whole, with the workers that are between their two transactions on an order.

use inventory_reservation_or.Prelude.{
  ℕ, ◌+◌, ◌-◌, ◌≤◌, ◌≡◌, Bool, true, false, Option, none, some, ◌==◌, if◌then◌else◌,
}
use inventory_reservation_or.Models.{Uid, OrderStatus}
use inventory_reservation_or.Session.{Session, rollback}
use inventory_reservation_or.Workers.Processor.{
  RetryPolicy, Attempt, start_processing, finish_processing,
}
use inventory_reservation_or.Stock.Books.Valid.{IsValid}
use inventory_reservation_or.Lifecycle.{Step, start, finish}
use inventory_reservation_or.Lifecycle.Statuses.{status_at}

-- The session, and how many workers are between their two transactions on each order.
pub record World : Type 0 where
  pub session : Session
  pub in_flight : Uid → ℕ

-- The worker's transactions have events of their own.
abbrev pub is_worker : {s t : Session} → Step s t → Bool
is_worker (start order_id s) = true
is_worker (finish policy order_id attempt s) = true
is_worker _ = false

abbrev pub begun : Uid → Option Attempt → (Uid → ℕ) → Uid → ℕ
begun order_id none f id = f id
begun order_id (some attempt) f id = if order_id == id then f id + 1 else f id

abbrev pub ended : Uid → (Uid → ℕ) → Uid → ℕ
ended order_id f id = if order_id == id then f id - 1 else f id

-- A transaction of a request or of the clean-up, the first one of a worker, or the second one of
-- a worker whose first one handed on an attempt.
pub data Event : World → World → Type 0 where
  quiet :
      {s t : Session} (f : Uid → ℕ) (step : Step s t)
      → is_worker step ≡ false
      → Event (record { session = s; in_flight = f }) (record { session = t; in_flight = f })
  begins :
      (order_id : Uid) (s : Session) (f : Uid → ℕ)
      → Event
          (record { session = s; in_flight = f })
          (record {
            session = (start_processing order_id s).1;
            in_flight = begun order_id (start_processing order_id s).0 f;
          })
  ends :
      (policy : RetryPolicy) (order_id : Uid) (attempt : Attempt) (s : Session) (f : Uid → ℕ)
      → 1 ≤ f order_id
      → Event
          (record { session = s; in_flight = f })
          (record {
            session = rollback (finish_processing policy order_id attempt s).1;
            in_flight = ended order_id f;
          })

pub data History (w : World) : World → Type 0 where
  nothing : History w w
  followed : {u v : World} → History w u → Event u v → History w v

-- At most one worker is on an order, and then the order is PROCESSING.
pub record Sound (w : World) : Type 0 where
  pub valid : IsValid w.session
  pub one : (id : Uid) → w.in_flight id ≤ 1
  pub busy : (id : Uid) → 1 ≤ w.in_flight id → status_at id w.session ≡ some OrderStatus.processing
