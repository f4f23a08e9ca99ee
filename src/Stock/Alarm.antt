-- ===== src/Stock/Alarm.antt =====
-- The low-stock flag that `reserve` and `release_reservation` of src/services/inventory_service.py
-- keep through `_check_low_stock_transition`.
use inventory_reservation_or.Prelude.{
  ℕ, ◌+◌, ◌-◌, ◌<◌, ◌≡◌, refl, Bool, true, false, ◌&&◌, Option, none, some, List, [], ◌∷◌, arith,
  leb, if◌then◌else◌, Bool-cases, Option-cases, inl, inr,
}
use inventory_reservation_or.Prelude.Int.{pos, neg, is_negative, is_positive}
use inventory_reservation_or.Prelude.Lists.{All}
use inventory_reservation_or.Models.{
  Uid, AuditEventType, Reference, Inventory, InventoryReservation,
}
use inventory_reservation_or.Session.{Session, now}
use inventory_reservation_or.Table.{update_where}
use inventory_reservation_or.Repositories.Inventory
use inventory_reservation_or.Repositories.Inventory.{
  is_at, flips, at_or_below_threshold, above_threshold,
}
use inventory_reservation_or.Repositories.Reservation
use inventory_reservation_or.Repositories.Reservation.{claim_expired_batch, release_claimed}
use inventory_reservation_or.Repositories.Logs.{record_audit}
use inventory_reservation_or.Services.Inventory.{
  alert_on, flip_and_alert, reset, check_low_stock_transition, reserve, release_reservation,
}

-- The flag is right: a row without a threshold is never low.
abbrev pub IsFlagRight : Inventory → Type 0
IsFlagRight r = r.is_low_stock ≡ at_or_below_threshold r

abbrev pub AreFlagsRight : Session → Type 0
AreFlagsRight s = All IsFlagRight s.tables.inventory

-- An UPDATE, row by row.
update_where-All :
    (P Q : Inventory → Type 0) (test : Inventory → Bool) (f : Inventory → Inventory)
    → ((r : Inventory) → P r → Q (if test r then f r else r))
    → (rows : List Inventory) → All P rows
    → All Q (update_where test f rows)
unfolding update_where
update_where-All P Q test f step [] h = tt
update_where-All P Q test f step (r ∷ rows) h =
    (step r h.0, update_where-All P Q test f step rows h.1)

module _ (p w : Uid) where
  -- After the quantity went down, or up: the flag may be behind for the one pair.
  abbrev MayMissLow : Inventory → Type 0
  MayMissLow r =
      (is_at p w r ≡ false → IsFlagRight r)
      × (r.is_low_stock ≡ true → at_or_below_threshold r ≡ true)

  abbrev MayStayLow : Inventory → Type 0
  MayStayLow r =
      (is_at p w r ≡ false → IsFlagRight r)
      × (r.is_low_stock ≡ false → at_or_below_threshold r ≡ false)
      × (r.low_stock_threshold ≡ none → r.is_low_stock ≡ false)

  flip-row :
      (r : Inventory)
      → MayMissLow r
      → IsFlagRight (if flips p w r then record r { is_low_stock = true } else r)
  flip-row r h = ground (arith, h.0, h.1)

  reset-row :
      (r : Inventory)
      → MayStayLow r
      → IsFlagRight (
          if is_at p w r && (r.is_low_stock && above_threshold r)
          then record r { is_low_stock = false }
          else r)
  reset-row r h = elim (Option-cases r.low_stock_threshold) [
    | inl e ↦ ground (arith, e, h.0, h.1, h.2)
    | inr (t, e) ↦ ground (arith, e, h.0, h.1, h.2)
  ]

  down-row :
      (q : ℕ) (r : Inventory)
      → IsFlagRight r
      → MayMissLow (
          if is_at p w r && leb q r.available_quantity
          then record r {
            available_quantity = r.available_quantity - q;
            reserved_quantity = r.reserved_quantity + q;
          }
          else r)
  down-row q r h = elim (Option-cases r.low_stock_threshold) [
    | inl e ↦ ground (arith, e, h)
    | inr (t, e) ↦ ground (arith, e, h)
  ]

  up-row :
      (q : ℕ) (r : Inventory)
      → IsFlagRight r
      → MayStayLow (
          if is_at p w r && leb q r.reserved_quantity
          then record r {
            available_quantity = r.available_quantity + q;
            reserved_quantity = r.reserved_quantity - q;
          }
          else r)
  up-row q r h = elim (Option-cases r.low_stock_threshold) [
    | inl e ↦ ground (arith, e, h)
    | inr (t, e) ↦ ground (arith, e, h)
  ]

  alert_on-inventory :
      (flip : Option (ℕ × ℕ)) (t : Session)
      → (alert_on p w flip t).1.tables.inventory ≡ t.tables.inventory
  unfolding alert_on
  alert_on-inventory none t = refl
  alert_on-inventory (some (q, level)) t = refl

  -- After a decrease the check puts the flag right, and after an increase too.
  check-down :
      (q : ℕ) (s : Session)
      → 0 < q
      → All MayMissLow s.tables.inventory
      → AreFlagsRight (check_low_stock_transition p w (neg q) s).1
  unfolding check_low_stock_transition flip_and_alert Inventory.try_flip_low_stock
  check-down q s positive h =
      let down : is_negative (neg q) ≡ true = ground arith in
      let (flip, s₁) = Inventory.try_flip_low_stock p w s in
      rw (down, alert_on-inventory flip s₁)
        (update_where-All MayMissLow IsFlagRight (flips p w) _ flip-row s.tables.inventory h)

  check-up :
      (q : ℕ) (s : Session)
      → 0 < q
      → All MayStayLow s.tables.inventory
      → AreFlagsRight (check_low_stock_transition p w (pos q) s).1
  unfolding check_low_stock_transition reset Inventory.try_reset_low_stock
  check-up q s positive h =
      let up : is_positive (pos q) ≡ true = ground arith in
      rw up (update_where-All MayStayLow IsFlagRight _ _ reset-row s.tables.inventory h)

  -- Where every row's low-stock flag says whether the row has a threshold that its available
  -- quantity does not exceed, it still does after a reservation of more than nothing that is done.
  pub reserve-AreFlagsRight :
      (q : ℕ) (order_id : Uid) (s : Session)
      → 0 < q
      → AreFlagsRight s
      → (reserve p w q order_id s).0 ≡ true
      → AreFlagsRight (reserve p w q order_id s).1
  unfolding reserve Inventory.try_reserve record_audit
  reserve-AreFlagsRight q order_id s positive h done =
      elim (Bool-cases (Inventory.try_reserve p w q s).0) [
        | inl d ↦
            let s₁ = (Inventory.try_reserve p w q s).1 in
            let s₂ =
              (record_audit p w (neg q) AuditEventType.inventory_reserved
                (Reference.to_order order_id) s₁).1 in
            rw d (
              check-down q s₂ positive
                (update_where-All IsFlagRight MayMissLow _ _ (down-row q) s.tables.inventory h))
        | inr d ↦ let no = rw d at done in cc
      ]

-- Where every row's low-stock flag says whether the row has a threshold that its available
-- quantity does not exceed, it still does after the release of a reservation of more than nothing,
-- whether the release is done or not.
pub release_reservation-AreFlagsRight :
    (r : InventoryReservation) (reference_id : Uid) (s : Session)
    → 0 < r.quantity
    → AreFlagsRight s
    → AreFlagsRight (release_reservation r reference_id s).1
unfolding release_reservation Inventory.release record_audit Reservation.mark_released now
release_reservation-AreFlagsRight r reference_id s positive h =
    elim (Bool-cases (Reservation.mark_released r.id s).0) [
      | inl marked ↦
          let p = r.product_id in
          let w = r.warehouse_id in
          let s₁ = (Reservation.mark_released r.id s).1 in
          let s₂ = (Inventory.release p w r.quantity s₁).1 in
          let s₃ =
            (record_audit p w (pos r.quantity) AuditEventType.reservation_released
              (Reference.to_order reference_id) s₂).1 in
          rw marked (
            check-up p w r.quantity s₃ positive (
              update_where-All IsFlagRight (MayStayLow p w) _ _ (up-row p w r.quantity)
                s.tables.inventory h))
      | inr other ↦ rw other h
    ]
