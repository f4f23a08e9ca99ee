-- ===== src/Lifecycle/Statuses/Final.antt =====
-- The statuses that an order goes through, over the history of the service.

use inventory_reservation_or.Prelude.{◌≡◌, refl, sym, ap, ◌∙◌, true, false, Option, some, arith}
use inventory_reservation_or.Models.{Uid, OrderStatus, is_terminal}
use inventory_reservation_or.Session.{Session}
use inventory_reservation_or.Stock.Books.Valid.{IsValid}
use inventory_reservation_or.Lifecycle.Statuses.{
  Moves, stays, placed, started, withdrawn, cancelled, expired, completed, failed, put_back,
  status_at,
}
use inventory_reservation_or.Lifecycle.Statuses.History.{
  World, Event, History, nothing, followed, Sound,
}
use inventory_reservation_or.Lifecycle.Statuses.Sound.{Event-Moves, Event-Sound}

pub History-Sound : {w u : World} → Sound w → History w u → Sound u
History-Sound h nothing = h
History-Sound h (followed history event) = Event-Sound (History-Sound h history) event

not_terminal :
    {b : Option OrderStatus} (active status : OrderStatus)
    → is_terminal active ≡ false
    → some active ≡ some status
    → is_terminal status ≡ true
    → b ≡ some status
not_terminal active status n e t =
    let same : active ≡ status = cc in let both = sym n ∙ ap is_terminal same ∙ t in cc

Moves-terminal :
    {a b : Option OrderStatus} (status : OrderStatus)
    → Moves true a b
    → a ≡ some status
    → is_terminal status ≡ true
    → b ≡ some status
Moves-terminal status stays e t = e
Moves-terminal status placed e t = cc
Moves-terminal status started e t = not_terminal OrderStatus.reserved status refl e t
Moves-terminal status withdrawn e t = not_terminal OrderStatus.pending status refl e t
Moves-terminal status cancelled e t = not_terminal OrderStatus.reserved status refl e t
Moves-terminal status expired e t = not_terminal OrderStatus.reserved status refl e t
Moves-terminal status (completed w) e t = not_terminal OrderStatus.processing status refl e t
Moves-terminal status (failed w) e t = not_terminal OrderStatus.processing status refl e t
Moves-terminal status (put_back w) e t = not_terminal OrderStatus.processing status refl e t

stays-terminal :
    {w u : World} (id : Uid) (status : OrderStatus)
    → Sound w
    → History w u
    → status_at id w.session ≡ some status
    → is_terminal status ≡ true
    → status_at id u.session ≡ some status
stays-terminal id status h nothing e t = e
stays-terminal id status h (followed history event) e t =
    Moves-terminal status (Event-Moves id (History-Sound h history) event)
      (stays-terminal id status h history e t) t

-- With no worker between its transactions at first.
abbrev pub resting : Session → World
resting s = record { session = s; in_flight = λ id. 0 }

resting-Sound : (s : Session) → IsValid s → Sound (resting s)
resting-Sound s v = record {
  valid = v;
  one = λ id. omega arith;
  busy = λ id working. let never : ⊥ = omega arith in elim never [ ];
}

-- From a session with agreeing books, nothing uncommitted and no worker between its two
-- transactions, let these transactions come in any order, the second one of a worker only for a
-- worker whose first one on that order handed on an attempt: the creation and the cancellation of
-- orders, the two transactions of a worker, rounds of the clean-up and of the outbox relay,
-- adjustments, settings of thresholds, and the creation of products, warehouses, users and the
-- default admin. An order that has reached a terminal status keeps it ever after.
pub History-terminal :
    {w u : World} (s : Session) (id : Uid) (status : OrderStatus)
    → IsValid s
    → History (resting s) w
    → History w u
    → status_at id w.session ≡ some status
    → is_terminal status ≡ true
    → status_at id u.session ≡ some status
History-terminal s id status v before after e t =
    stays-terminal id status (History-Sound (resting-Sound s v) before) after e t

-- From a session with agreeing books, nothing uncommitted and no worker between its two
-- transactions, let these transactions come in any order, the second one of a worker only for a
-- worker whose first one on that order handed on an attempt: the creation and the cancellation of
-- orders, the two transactions of a worker, rounds of the clean-up and of the outbox relay,
-- adjustments, settings of thresholds, and the creation of products, warehouses, users and the
-- default admin. Each of them leaves the status of every order as it is, or moves it from not
-- stored to RESERVED, from RESERVED to PROCESSING, CANCELLED or EXPIRED, from PENDING to
-- CANCELLED, or from PROCESSING to COMPLETED, FAILED or RESERVED.
pub History-Moves :
    {w u : World} (s : Session) (id : Uid)
    → IsValid s
    → History (resting s) w
    → Event w u
    → Moves true (status_at id w.session) (status_at id u.session)
History-Moves s id v before event = Event-Moves id (History-Sound (resting-Sound s v) before) event
