-- ===== src/Stock/Books/Flags.antt =====
-- `_check_low_stock_transition` of src/services/inventory_service.py, and the books.
use inventory_reservation_or.Prelude.{
  ℕ, ◌≡◌, refl, Bool, true, false, Option, none, some, List, arith, if◌then◌else◌, Bool-cases, inl,
  inr, ap, sym, ◌∙◌,
}
use mathlib.Core.Option
use mathlib.Core.Path.{subst}
use inventory_reservation_or.Prelude.Int.{ℤ, pos, is_negative, is_positive}
use inventory_reservation_or.Models.{Uid, Inventory, InventoryReservation, InventoryAuditLog}
use inventory_reservation_or.Session.{Session}
use inventory_reservation_or.Table.{update_where}
use inventory_reservation_or.Repositories.Inventory
use inventory_reservation_or.Services.Inventory.{
  alert_on, flip_and_alert, reset, check_low_stock_transition,
}
use inventory_reservation_or.Stock.{row_at, available_of, reserved_of, IsConsistent, Consistent}
use inventory_reservation_or.Stock.Rows.{row_at-update_where, update_where-IsUnique}

-- An UPDATE of the table that touches neither keys nor quantities keeps the books.
module _ (test : Inventory → Bool) (f : Inventory → Inventory)
    (kp : (r : Inventory) → (f r).product_id ≡ r.product_id)
    (kw : (r : Inventory) → (f r).warehouse_id ≡ r.warehouse_id)
    (ka : (r : Inventory) → (f r).available_quantity ≡ r.available_quantity)
    (kr : (r : Inventory) → (f r).reserved_quantity ≡ r.reserved_quantity) where
  same_available :
      (found : Option Inventory)
      → available_of (Option.map (λ r. if test r then f r else r) found) ≡ available_of found
  same_available none = refl
  same_available (some r) = ground (arith, ka r)

  same_reserved :
      (found : Option Inventory)
      → reserved_of (Option.map (λ r. if test r then f r else r) found) ≡ reserved_of found
  same_reserved none = refl
  same_reserved (some r) = ground (arith, kr r)

  pub update_where-Consistent :
      {pending reservations : List InventoryReservation} {inventory : List Inventory}
      {audit_logs : List InventoryAuditLog}
      → Consistent pending inventory reservations audit_logs
      → Consistent pending (update_where test f inventory) reservations audit_logs
  update_where-Consistent {inventory = inventory} h = record {
    unique_rows = update_where-IsUnique test f kp kw inventory h.unique_rows;
    unique_ids = h.unique_ids;
    balance = λ p w.
        rw (row_at-update_where test f kp kw p w inventory)
          (same_reserved (row_at p w inventory) ∙ h.balance p w);
    explained = λ p w.
        rw (row_at-update_where test f kp kw p w inventory)
          (h.explained p w ∙ ap pos (sym (same_available (row_at p w inventory))));
  }

abbrev flagged : Bool → Inventory → Inventory
flagged b r = record r { is_low_stock = b }

module _ (pending reservations : List InventoryReservation) (audit_logs : List InventoryAuditLog)
    (p w : Uid) where
  abbrev Agree : Session → Type 0
  Agree s = Consistent pending s.tables.inventory reservations audit_logs

  alert_on-Agree : (flip : Option (ℕ × ℕ)) (s : Session) → Agree s → Agree (alert_on p w flip s).1
  unfolding alert_on
  alert_on-Agree none s h = h
  alert_on-Agree (some (q, t)) s h = h

  flip_and_alert-Agree : (s : Session) → Agree s → Agree (flip_and_alert p w s).1
  unfolding flip_and_alert
  flip_and_alert-Agree s h =
      let (flip, s₁) = Inventory.try_flip_low_stock p w s in
      alert_on-Agree flip s₁
        (update_where-Consistent _ (flagged true) (λ r. refl) (λ r. refl) (λ r. refl) (λ r. refl) h)

  reset-Agree : (s : Session) → Agree s → Agree (reset p w s).1
  unfolding reset
  reset-Agree s h =
      update_where-Consistent _ (flagged false) (λ r. refl) (λ r. refl) (λ r. refl) (λ r. refl) h

  -- The detection of low stock keeps what the inventory agrees with.
  pub check-Agree : (d : ℤ) (s : Session) → Agree s → Agree (check_low_stock_transition p w d s).1
  unfolding check_low_stock_transition
  check-Agree d s h = elim (Bool-cases (is_negative d)) [
    | inl e ↦ rw e (flip_and_alert-Agree s h)
    | inr e ↦ elim (Bool-cases (is_positive d)) [
      | inl e' ↦ rw (e, e') (reset-Agree s h)
      | inr e' ↦ rw (e, e') h
    ]
  ]

abbrev pub Books : Type 0
Books = List InventoryReservation × List InventoryAuditLog

abbrev pub books : Session → Books
books s = (s.tables.reservations, s.tables.audit_logs)

module _ (p w : Uid) where
  alert_on-books : (flip : Option (ℕ × ℕ)) (s : Session) → books (alert_on p w flip s).1 ≡ books s
  unfolding alert_on
  alert_on-books none s = refl
  alert_on-books (some (q, t)) s = refl

  -- It leaves the reservations and the audit log alone.
  pub check-books : (d : ℤ) (s : Session) → books (check_low_stock_transition p w d s).1 ≡ books s
  unfolding check_low_stock_transition
  check-books d s = elim (Bool-cases (is_negative d)) [
    | inl e ↦ let (flip, s₁) = Inventory.try_flip_low_stock p w s in rw e (alert_on-books flip s₁)
    | inr e ↦ elim (Bool-cases (is_positive d)) [ inl e' ↦ rw (e, e') | inr e' ↦ rw (e, e') ]
  ]

  pub check-IsConsistent :
      {pending : List InventoryReservation} (d : ℤ) (s : Session)
      → IsConsistent pending s.tables
      → IsConsistent pending (check_low_stock_transition p w d s).1.tables
  check-IsConsistent {pending} d s h =
      let s' = (check_low_stock_transition p w d s).1 in
      subst (λ (b : Books). Consistent pending s'.tables.inventory b.0 b.1) (sym (check-books d s))
        (check-Agree pending s.tables.reservations s.tables.audit_logs p w d s h)
