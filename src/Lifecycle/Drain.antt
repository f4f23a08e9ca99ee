-- ===== src/Lifecycle/Drain.antt =====
-- The `while True` of `expire_reservations` in src/workers/reservation_cleanup.py.
use inventory_reservation_or.Prelude.{
  ℕ, zero, suc, ◌+◌, ◌-◌, ◌<◌, ◌≡◌, refl, ◌∙◌, true, false, Option, none, some, List, [], ◌∷◌,
  arith, if◌then◌else◌, Bool-cases, inl, inr,
}
use inventory_reservation_or.Prelude.Lists.{All, take, length}
use inventory_reservation_or.Models.{Uid, Time, Order, InventoryReservation, is_active, is_reserved}
use inventory_reservation_or.Session.{Session, commit, now}
use inventory_reservation_or.Table.{select, update_where}
use inventory_reservation_or.Table.Sort.{All-select, select-none}
use inventory_reservation_or.Repositories.Inventory
use inventory_reservation_or.Repositories.Order
use inventory_reservation_or.Repositories.Reservation.{
  is_among, ids_of, release_at, has_expired, release_claimed, claim_expired_batch,
}
use inventory_reservation_or.Repositories.Logs.{record_audit}
use inventory_reservation_or.Workers.Cleanup.{
  batch_size, expire_if_reserved, expire_one, expire_all, expire_batch, expire_loop,
  expire_reservations,
}
use inventory_reservation_or.Stock.Books.Claim.{All-take, among_active, IsChosen-expired}
use inventory_reservation_or.Stock.Books.Valid.{IsValid}
use inventory_reservation_or.Stock.Books.Expire.{expire_batch-IsValid}

-- How many reservations are active.
abbrev pub active_count : List InventoryReservation → ℕ
active_count [] = 0
active_count (r ∷ rows) = (if is_active r.status then 1 else 0) + active_count rows

-- The rest of a round leaves the reservations and the clock as the claim left them.
expire_if_reserved-kept :
    (order_id : Uid) (found : Option Order) (s : Session)
    → (expire_if_reserved order_id found s).1.tables.reservations ≡ s.tables.reservations
unfolding Order.update_status
expire_if_reserved-kept order_id none s = refl
expire_if_reserved-kept order_id (some order) s = elim (Bool-cases (is_reserved order.status)) [
  | inl r ↦ rw r refl
  | inr r ↦ rw r refl
]

expire_all-kept :
    (claimed : List InventoryReservation) (s : Session)
    → (expire_all claimed s).1.tables.reservations ≡ s.tables.reservations
unfolding expire_all expire_one record_audit Inventory.release
expire_all-kept [] s = refl
expire_all-kept (r ∷ claimed) s =
    rw (expire_all-kept claimed (expire_one r s).1) (expire_if_reserved-kept r.order_id _ _)

-- The flipped rows are those that are counted no more.
count-release_at :
    (ids : List Uid) (t : Time) (rows : List InventoryReservation)
    → All (λ x. is_among ids x.id ≡ true → is_active x.status ≡ true) rows
    → let updated = update_where (λ r. is_among ids r.id) (release_at t) rows in
      length (select (λ r. is_among ids r.id) updated) + active_count updated ≡ active_count rows
unfolding update_where select
count-release_at ids t [] h = refl
count-release_at ids t (x ∷ rows) h =
    let ih = count-release_at ids t rows h.1 in
    let active = h.0 in
    elim (Bool-cases (is_among ids x.id)) [
      | inl hit ↦ rw (hit, hit) (let on = active hit in ground (arith, ih))
      | inr miss ↦ rw (miss, miss) (omega (arith, ih))
    ]

count-release_claimed :
    (t : Time) (ids : List Uid) (s : Session)
    → All (λ x. is_among ids x.id ≡ true → is_active x.status ≡ true) s.tables.reservations
    → let (claimed, s') = release_claimed t ids s in
      length claimed + active_count s'.tables.reservations ≡ active_count s.tables.reservations
unfolding release_claimed
count-release_claimed t [] s h = omega arith
count-release_claimed t (id ∷ ids) s h = count-release_at (id ∷ ids) t s.tables.reservations h

-- A round releases as many reservations as it returns.
batch-count :
    (s : Session)
    → IsValid s
    → let (claimed, s') = expire_batch s in
      length claimed + active_count s'.tables.reservations ≡ active_count s.tables.reservations
unfolding expire_batch now commit claim_expired_batch
batch-count s v =
    let (t, s₁) = now s in
    let rows = s.tables.reservations in
    let chosen = take batch_size (select (has_expired t) rows) in
    let (claimed, s₂) = claim_expired_batch t batch_size s₁ in
    rw (expire_all-kept claimed s₂) (
      count-release_claimed t (ids_of chosen) s₁
        (among_active rows chosen (IsChosen-expired t batch_size rows v.consistent.unique_ids)))

take-none : (n : ℕ) (rows : List InventoryReservation) → take (suc n) rows ≡ [] → rows ≡ []
take-none n [] e = refl
take-none n (r ∷ rows) e = cc

All-before :
    (ids : List Uid) (f : InventoryReservation → InventoryReservation)
    → ((r : InventoryReservation) → (f r).id ≡ r.id)
    → (rows : List InventoryReservation)
    → All (λ r. is_among ids r.id ≡ false) (update_where (λ r. is_among ids r.id) f rows)
    → All (λ r. is_among ids r.id ≡ false) rows
unfolding update_where
All-before ids f same [] h = tt
All-before ids f same (x ∷ rows) h =
    let k = h.0 in (ground (arith, k, same x), All-before ids f same rows h.1)

-- A choice none of whose ids is in the table was empty.
none_chosen :
    (t : Time) (n : ℕ) (rows chosen : List InventoryReservation)
    → take (suc n) (select (has_expired t) rows) ≡ chosen
    → All (λ r. is_among (ids_of chosen) r.id ≡ false) rows
    → chosen ≡ []
none_chosen t n rows [] e h = refl
none_chosen t n rows (c ∷ chosen) e h =
    let kept = All-take _ (suc n) _ (All-select _ (has_expired t) rows h) in
    let first = (rw e at kept).0.0 in absurd (ground (arith, first))

-- A claim that returns nothing had nothing to choose.
claimed_none :
    (t : Time) (n : ℕ) (s : Session) (chosen : List InventoryReservation)
    → take (suc n) (select (has_expired t) s.tables.reservations) ≡ chosen
    → (release_claimed t (ids_of chosen) s).0 ≡ []
    → chosen ≡ []
unfolding release_claimed
claimed_none t n s [] e none_found = refl
claimed_none t n s (c ∷ chosen) e none_found =
    none_chosen t n s.tables.reservations (c ∷ chosen) e (
      All-before (ids_of (c ∷ chosen)) (release_at t) (λ r. refl) s.tables.reservations
        (select-none _ _ none_found))

-- No active reservation of the session is past the time that was last read.
abbrev NoneExpired : Session → Type 0
NoneExpired s = All (λ r. has_expired (s.clock (s.ticks - 1)) r ≡ false) s.tables.reservations

-- The round after which the loop stops has found nothing expired.
batch-none : (s : Session) → (expire_batch s).0 ≡ [] → NoneExpired (expire_batch s).1
unfolding expire_batch now commit claim_expired_batch release_claimed expire_all
batch-none s none_found =
    let t = s.clock s.ticks in
    let rows = s.tables.reservations in
    let s₁ = (now s).1 in
    let e = claimed_none t 99 s₁ (take batch_size (select (has_expired t) rows)) refl none_found in
    let nothing = select-none (has_expired t) rows (take-none 99 _ e) in
    let tick : suc s.ticks - 1 ≡ s.ticks = omega arith in rw (e, tick) nothing

-- The loop has ended: with valid books, nothing expired, and a total that is the number of
-- reservations that are active no more.
abbrev pub Drained : ℕ → Session → Option (ℕ × Session) → Type 0
Drained total s none = ⊥
Drained total s (some (total', s')) =
    IsValid s'
    × NoneExpired s'
    × (total' + active_count s'.tables.reservations ≡ total + active_count s.tables.reservations)

Drained-step :
    (total total' : ℕ) (s s' : Session) (out : Option (ℕ × Session))
    → total' + active_count s'.tables.reservations ≡ total + active_count s.tables.reservations
    → Drained total' s' out
    → Drained total s out
Drained-step total total' s s' none e h = h
Drained-step total total' s s' (some (n, last)) e h = (h.0, h.1, h.2 ∙ e)

module _ (fuel total : ℕ) (s : Session) (v : IsValid s) where
  abbrev after_round : List InventoryReservation → Session → Option (ℕ × Session)
  after_round claimed s' =
      let again = expire_loop fuel (total + length claimed) s' in
      elim claimed [ [] ↦ some (total, s') | _ ∷ _ ↦ again ]

  round-Drained :
      ((total' : ℕ) (s' : Session)
        → IsValid s'
        → active_count s'.tables.reservations < fuel
        → Drained total' s' (expire_loop fuel total' s'))
      → active_count s.tables.reservations < suc fuel
      → (claimed : List InventoryReservation) → (expire_batch s).0 ≡ claimed
      → Drained total s (after_round claimed (expire_batch s).1)
  round-Drained ih enough [] e =
      let count = rw e at (batch-count s v) in
      (expire_batch-IsValid s v, batch-none s e, (omega (arith, count)))
  round-Drained ih enough (r ∷ rows) e =
      let s' = (expire_batch s).1 in
      let v' = expire_batch-IsValid s v in
      let count = rw e at (batch-count s v) in
      Drained-step total _ s s' (expire_loop fuel (total + length (r ∷ rows)) s')
        (omega (arith, count)) (ih _ s' v' (omega (arith, count)))

expire_loop-Drained :
    (fuel total : ℕ) (s : Session)
    → IsValid s
    → active_count s.tables.reservations < fuel
    → Drained total s (expire_loop fuel total s)
unfolding expire_loop
expire_loop-Drained zero total s v enough = absurd (omega arith)
expire_loop-Drained (suc fuel) total s v enough =
    round-Drained fuel total s v (λ total' s' v'. expire_loop-Drained fuel total' s' v') enough _
      refl

-- From a session with agreeing books and nothing uncommitted, the clean-up ends within any number
-- of rounds above the number of active reservations. Then the books agree with nothing
-- uncommitted, no active reservation is past the time that was last read, and the total that it
-- answers is the number of reservations that are active no more.
pub expire_reservations-Drained :
    (fuel : ℕ) (s : Session)
    → IsValid s
    → active_count s.tables.reservations < fuel
    → Drained 0 s (expire_reservations fuel s)
unfolding expire_reservations
expire_reservations-Drained fuel s v enough = expire_loop-Drained fuel 0 s v enough
