-- ===== src/Workers/Relay/Round.antt =====
-- One round of src/workers/outbox_relay.py: what it claims, hands over and marks.
use text.Mathlib.Text.{◌==◌ as str_eq}
use inventory_reservation_or.Prelude.{
  ℕ, zero, suc, String, ◌≤◌, ◌≡◌, ◌≢◌, refl, ap, ◌∙◌, true, false, Option, none, some, List, [],
  ◌∷◌, arith, eq_iff, Bool-cases, ◌⊎◌, inl, inr,
}
use inventory_reservation_or.Prelude.Lists.{length, take, All}
use inventory_reservation_or.Models.{Uid, Payload, OutboxEvent}
use inventory_reservation_or.Session.{
  Session, Tables, Result, ok, err, Error, commit, rollback, now,
}
use inventory_reservation_or.Table.{select}
use inventory_reservation_or.Table.Sort.{order_by, order_by-length, All-order_by, select-test}
use inventory_reservation_or.Repositories.Logs.{is_pending, claim_pending_batch, mark_published}
use inventory_reservation_or.Workers.Relay.{
  Task, order_task, handler, hand_over, publish, go_on, publish_all, finish_relay, relay_once,
  relay_batch_size,
}
use inventory_reservation_or.Workers.Relay.Marks.{
  AreMarked, AreMarked-nothing, AreMarked-then, mark_published-AreMarked,
}

-- The tasks of the events, in their order, and the ids of the events that have one.
pub data Handed : List OutboxEvent → List Task → List Uid → Type 0 where
  done : Handed [] [] []
  order :
      {e : OutboxEvent} {events : List OutboxEvent} {tasks : List Task} {ids : List Uid}
      {order_id : Uid}
      → e.event_type ≡ "ORDER_RESERVED"
      → e.payload ≡ Payload.order_payload order_id
      → Handed events tasks ids
      → Handed (e ∷ events) (Task.process_order_task order_id ∷ tasks) (e.id ∷ ids)
  alert :
      {e : OutboxEvent} {events : List OutboxEvent} {tasks : List Task} {ids : List Uid}
      → e.event_type ≡ "LOW_STOCK_ALERT_CREATED"
      → Handed events tasks ids
      → Handed (e ∷ events) (Task.notify_low_stock_task e.payload ∷ tasks) (e.id ∷ ids)
  passed_over :
      {e : OutboxEvent} {events : List OutboxEvent} {tasks : List Task} {ids : List Uid}
      → e.event_type ≢ "ORDER_RESERVED"
      → e.event_type ≢ "LOW_STOCK_ALERT_CREATED"
      → Handed events tasks ids
      → Handed (e ∷ events) tasks ids

-- One event, by what its handler is.
abbrev HandedOne : OutboxEvent → Option (Result Task) → Type 0
HandedOne e none = (e.event_type ≢ "ORDER_RESERVED") × (e.event_type ≢ "LOW_STOCK_ALERT_CREATED")
HandedOne e (some (err x)) = Unit
HandedOne e (some (ok task)) =
    (events : List OutboxEvent) (tasks : List Task) (ids : List Uid)
    → Handed events tasks ids
    → Handed (e ∷ events) (task ∷ tasks) (e.id ∷ ids)

order_task-HandedOne :
    (e : OutboxEvent) (payload : Payload)
    → e.payload ≡ payload
    → e.event_type ≡ "ORDER_RESERVED"
    → HandedOne e (some (order_task payload))
order_task-HandedOne e (Payload.order_payload order_id) p h = λ events tasks ids k. order h p k
order_task-HandedOne e _ p h = tt

differs : (a b : String) → str_eq a b ≡ false → a ≢ b
differs a b h e = let same : str_eq a b ≡ true = (eq_iff a b).1 e in cc

handler-HandedOne : (e : OutboxEvent) → HandedOne e (handler e.event_type e.payload)
unfolding handler
handler-HandedOne e = elim (Bool-cases (str_eq e.event_type "ORDER_RESERVED")) [
  | inl o ↦
      rw o (order_task-HandedOne e e.payload refl ((eq_iff e.event_type "ORDER_RESERVED").0 o))
  | inr other ↦ elim (Bool-cases (str_eq e.event_type "LOW_STOCK_ALERT_CREATED")) [
    | inl a ↦
        let type = (eq_iff e.event_type "LOW_STOCK_ALERT_CREATED").0 a in
        rw (other, a) (λ events tasks ids k. alert type k)
    | inr na ↦
        rw (other, na)
          (
            differs e.event_type "ORDER_RESERVED" other,
            differs e.event_type "LOW_STOCK_ALERT_CREATED" na,
          )
  ]
]

-- All tables but the outbox, and what is committed.
abbrev Others : Type 0
Others = Tables × Tables

abbrev others : Session → Others
others s = (record s.tables { outbox = [] }, s.committed)

-- What a loop over events has done, by its answer.
abbrev Published : Session → List OutboxEvent → (Result (Unit {0}) × List Task × Session) → Type 0
Published s events (ok _, sent, s') =
    (ids : List Uid) × Handed events sent ids
    × AreMarked ids s.tables.outbox s'.tables.outbox
    × (others s' ≡ others s)
Published s events (err e, sent, s') = others s' ≡ others s

module _ (delay : Task → Option Error) where
  after_one :
      (e : OutboxEvent) (events : List OutboxEvent) (task : Task) (s s₁ : Session)
      (out : Result (Unit {0}) × List Task × Session)
      → HandedOne e (some (ok task))
      → AreMarked (e.id ∷ []) s.tables.outbox s₁.tables.outbox
      → others s₁ ≡ others s
      → Published s₁ events out
      → Published s (e ∷ events) (go_on delay (ok tt, task ∷ [], s₁) (λ _. out))
  after_one e events task s s₁ (ok _, sent, s') one m o (ids, handed, marked, same) = (
    e.id ∷ ids,
    one events sent ids handed,
    AreMarked-then e.id ids s.tables.outbox s₁.tables.outbox s'.tables.outbox m marked,
    same ∙ o,
  )
  after_one e events task s s₁ (err x, sent, s') one m o h = h ∙ o

  handed-Published :
      (e : OutboxEvent) (events : List OutboxEvent) (task : Task) (raised : Option Error)
      (s : Session)
      → HandedOne e (some (ok task))
      → ((s₁ : Session) → Published s₁ events (publish_all delay events s₁))
      → Published s
          (e ∷ events)
          (go_on delay (hand_over delay e.id task raised s) (publish_all delay events))
  unfolding mark_published now
  handed-Published e events task none s one k =
      let s₁ = (mark_published e.id s).1 in
      after_one e events task s s₁ (publish_all delay events s₁) one
        (mark_published-AreMarked e.id s) refl (k s₁)
  handed-Published e events task (some x) s one k = refl

  passed-Published :
      (e : OutboxEvent) (events : List OutboxEvent) (s : Session)
      (out : Result (Unit {0}) × List Task × Session)
      → HandedOne e none
      → Published s events out
      → Published s (e ∷ events) (go_on delay (ok tt, [], s) (λ _. out))
  passed-Published e events s (ok _, sent, s') one (ids, handed, marked, same) =
      (ids, passed_over one.0 one.1 handed, marked, same)
  passed-Published e events s (err x, sent, s') one h = h

  publish-Published :
      (e : OutboxEvent) (events : List OutboxEvent) (handled : Option (Result Task)) (s : Session)
      → HandedOne e handled
      → ((s₁ : Session) → Published s₁ events (publish_all delay events s₁))
      → Published s
          (e ∷ events)
          (go_on delay (publish delay e.id handled s) (publish_all delay events))
  publish-Published e events none s one k =
      passed-Published e events s (publish_all delay events s) one (k s)
  publish-Published e events (some (err x)) s one k = refl
  publish-Published e events (some (ok task)) s one k =
      handed-Published e events task (delay task) s one k

  publish_all-Published :
      (events : List OutboxEvent) (s : Session) → Published s events (publish_all delay events s)
  unfolding publish_all
  publish_all-Published [] s = ([], done, AreMarked-nothing s.tables.outbox, refl)
  publish_all-Published (e ∷ events) s =
      publish-Published e events (handler e.event_type e.payload) s (handler-HandedOne e)
        (publish_all-Published events)

-- Pending events, fifty of them or else as many as there are.
abbrev pub IsBatch : List OutboxEvent → List OutboxEvent → Type 0
IsBatch batch outbox =
    All (λ e. is_pending e ≡ true) batch
    × (length batch ≤ 50)
    × ((length batch ≡ 50) ⊎ (length batch ≡ length (select is_pending outbox)))

module _ {A : Type 0} where
  take-All : (P : A → Type 0) (n : ℕ) (xs : List A) → All P xs → All P (take n xs)
  take-All P zero xs h = tt
  take-All P (suc n) [] h = tt
  take-All P (suc n) (x ∷ xs) h = (h.0, take-All P n xs h.1)

  take-fills :
      (n : ℕ) (xs : List A)
      → (length (take n xs) ≤ n) × ((length (take n xs) ≡ n) ⊎ (length (take n xs) ≡ length xs))
  take-fills zero xs = (omega arith, inl refl)
  take-fills (suc n) [] = (omega arith, inr refl)
  take-fills (suc n) (x ∷ xs) =
      let h = take-fills n xs in
      (
        let le = h.0 in omega arith,
        elim h.1 [ inl full ↦ inl (ap suc full) | inr all ↦ inr (ap suc all) ],
      )

pub claim_pending_batch-IsBatch :
    (s : Session) → IsBatch (claim_pending_batch relay_batch_size s) s.tables.outbox
unfolding claim_pending_batch
claim_pending_batch-IsBatch s =
    let pending = select is_pending s.tables.outbox in
    let sorted = order_by (λ (e : OutboxEvent). e.created_at) pending in
    let filled = take-fills relay_batch_size sorted in
    (
      take-All _ relay_batch_size sorted
          (All-order_by (λ e. e.created_at) _ pending (select-test is_pending s.tables.outbox)),
      filled.0,
      elim filled.1 [
        | inl full ↦ inl full
        | inr all ↦ inr (all ∙ order_by-length (λ e. e.created_at) pending)
      ],
    )

-- What a round does, by its answer.
abbrev pub RelayEffect : Session → (Result ℕ × List Task × Session) → Type 0
RelayEffect s (ok n, sent, s') =
    let batch = claim_pending_batch relay_batch_size s in
    (n ≡ length batch)
    × IsBatch batch s.tables.outbox
    × (s'.committed ≡ s'.tables)
    × (record s'.tables { outbox = [] } ≡ record s.tables { outbox = [] })
    × ((ids : List Uid) × Handed batch sent ids × AreMarked ids s.tables.outbox s'.tables.outbox)
RelayEffect s (err e, sent, s') = (s'.tables ≡ s.committed) × (s'.committed ≡ s.committed)

module _ (delay : Task → Option Error) where
  finish_relay-RelayEffect :
      (s : Session) (out : Result (Unit {0}) × List Task × Session)
      → Published s (claim_pending_batch relay_batch_size s) out
      → RelayEffect s (finish_relay delay (length (claim_pending_batch relay_batch_size s)) out)
  unfolding commit rollback
  finish_relay-RelayEffect s (ok _, sent, s') (ids, handed, marked, same) = (
    refl,
    claim_pending_batch-IsBatch s,
    refl,
    ap (λ (o : Others). o.0) same,
    (ids, handed, marked),
  )
  finish_relay-RelayEffect s (err e, sent, s') h =
      (ap (λ (o : Others). o.1) h, ap (λ (o : Others). o.1) h)

  -- A round of the outbox relay that answers has claimed pending events, fifty of them or else all
  -- there are, and answered their number. It has handed over, in their order, the processing of
  -- the order that an ORDER_RESERVED event names and the notification of a LOW_STOCK_ALERT_CREATED
  -- event, has marked these events published and left every other event as it was, times of
  -- publication aside, has changed no other table, and has committed. A round that raises has
  -- committed nothing and leaves the tables as they were last committed.
  pub relay_once-RelayEffect : (s : Session) → RelayEffect s (relay_once delay s)
  unfolding relay_once
  relay_once-RelayEffect s = finish_relay-RelayEffect s _ (publish_all-Published delay _ s)
