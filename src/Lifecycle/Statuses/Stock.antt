-- ===== src/Lifecycle/Statuses/Stock.antt =====
-- The administrators' operations on stock, which no order sees.
use inventory_reservation_or.Prelude.{
  ℕ, fit, ◌≡◌, refl, sym, ap, ◌∙◌, false, Option, none, some, List, Bool-cases, Option-cases, inl,
  inr,
}
use inventory_reservation_or.Prelude.Int.{ℤ, pos_part, is_negative}
use inventory_reservation_or.Models.{Uid, Order, Inventory, InventoryAdjustmentRequest}
use inventory_reservation_or.Session.{
  Session, Tables, Result, ok, err, commit, rollback, generate_id,
}
use inventory_reservation_or.Session.Ensures.{Ensures, bind-Ensures}
use inventory_reservation_or.Repositories.Inventory
use inventory_reservation_or.Repositories.Catalog.{product_by_id, warehouse_by_id}
use inventory_reservation_or.Repositories.Logs.{record_audit}
use inventory_reservation_or.Services.Adjustments.{change_stock, log_adjustment, create_adjustment}
use inventory_reservation_or.Services.LowStock.{write_threshold, commit_row, set_threshold}
use inventory_reservation_or.Frames.{Frame, check-frame}
use inventory_reservation_or.Stock.Books.Valid.{IsValid}
use inventory_reservation_or.Stock.Books.Adjust.{create_adjustment_effect}
use inventory_reservation_or.Stock.Books.Threshold.{set_threshold_effect}
use inventory_reservation_or.Lifecycle.Statuses.{Moves, stays, status_at}

abbrev Any : Session → Type 0
Any s = Unit

-- What a transaction that keeps the orders leaves, at the end of its session.
undone-Moves :
    {A : Type 0} (id : Uid) (s : Session) (out : Result A × Session)
    → IsValid s
    → Ensures (λ _ s'. s'.tables.orders ≡ s.tables.orders) Any out
    → Ensures (λ _. IsValid) (λ s'. s'.committed ≡ s.committed) out
    → Moves false (status_at id s) (status_at id (rollback out.1))
unfolding rollback
undone-Moves id s (ok a, s') v h k =
    let same : s'.committed.orders ≡ s.tables.orders =
      ap (λ (t : Tables). t.orders) (sym k.idle) ∙ h in
    rw same stays
undone-Moves id s (err e, s') v h k =
    let same : s'.committed.orders ≡ s.tables.orders =
      ap (λ (t : Tables). t.orders) (k ∙ sym v.idle) in
    rw same stays

module _ (rows : List Order) where
  abbrev Has : Session → Type 0
  Has s = s.tables.orders ≡ rows

  add_unless-Has :
      (row : Inventory) (found : Option Inventory) (s : Session)
      → Has s
      → Ensures (λ _. Has) Any (Inventory.add_unless row found s)
  add_unless-Has row (some clash) s h = tt
  add_unless-Has row none s h = h

  change_stock-Has :
      (payload : InventoryAdjustmentRequest) (found : Option Inventory) (s : Session)
      → Has s
      → Ensures (λ _. Has) Any (change_stock payload found s)
  unfolding change_stock Inventory.create generate_id Inventory.adjust_available
  change_stock-Has payload none s h = elim (Bool-cases (is_negative payload.quantity)) [
    | inl n ↦ rw n tt
    | inr n ↦ rw n (add_unless-Has _ _ (generate_id s).1 h)
  ]
  change_stock-Has payload (some row) s h =
      let p = payload.product_id in
      let w = payload.warehouse_id in
      let (done, s₁) = Inventory.adjust_available p w payload.quantity s in
      elim (Bool-cases done) [
        | inl d ↦ rw d (ap (λ (f : Frame). f.0.1) (check-frame p w payload.quantity s₁) ∙ h)
        | inr d ↦ rw d tt
      ]

  log_adjustment-Has :
      (payload : InventoryAdjustmentRequest) (row : Inventory) (s : Session)
      → Has s
      → Ensures (λ _. Has) Any (log_adjustment payload row s)
  unfolding log_adjustment record_audit commit
  log_adjustment-Has payload row s h = elim (Option-cases (fit 64 payload.reason)) [
    | inl long ↦ rw long tt
    | inr (reference, fits) ↦ rw fits h
  ]

  create_adjustment-Has :
      (payload : InventoryAdjustmentRequest) (s : Session)
      → Has s
      → Ensures (λ _. Has) Any (create_adjustment payload s)
  unfolding create_adjustment
  create_adjustment-Has payload s h = elim (Option-cases (product_by_id payload.product_id s)) [
    | inl e ↦ rw e tt
    | inr (product, e) ↦ elim (Option-cases (warehouse_by_id payload.warehouse_id s)) [
      | inl f ↦ rw (e, f) tt
      | inr (warehouse, f) ↦
          let found = Inventory.get payload.product_id payload.warehouse_id s in
          rw (e, f)
            (bind-Ensures (λ _. Has) (λ _. Has) Any (change_stock payload found)
              (log_adjustment payload) s (change_stock-Has payload found s h)
              (λ row s' h'. log_adjustment-Has payload row s' h'))
    ]
  ]

  write_threshold-Has :
      (p w : Uid) (t : ℕ) (found : Option Inventory) (s : Session)
      → Has s
      → Ensures (λ _. Has) Any (write_threshold p w t found s)
  unfolding write_threshold Inventory.create generate_id Inventory.set_threshold
  write_threshold-Has p w t none s h = add_unless-Has _ _ (generate_id s).1 h
  write_threshold-Has p w t (some row) s h = h

  commit_row-Has :
      (row : Inventory) (s : Session) → Has s → Ensures (λ _. Has) Any (commit_row row s)
  unfolding commit
  commit_row-Has row s h = h

  set_threshold-Has :
      (p w : Uid) (threshold : ℤ) (s : Session)
      → Has s
      → Ensures (λ _. Has) Any (set_threshold p w threshold s)
  unfolding set_threshold
  set_threshold-Has p w threshold s h = elim (Bool-cases (is_negative threshold)) [
    | inl n ↦ rw n tt
    | inr n ↦ elim (Option-cases (product_by_id p s)) [
      | inl e ↦ rw (n, e) tt
      | inr (product, e) ↦ elim (Option-cases (warehouse_by_id w s)) [
        | inl f ↦ rw (n, e, f) tt
        | inr (warehouse, f) ↦
            let found = Inventory.get p w s in
            rw (n, e, f)
              (bind-Ensures (λ _. Has) (λ _. Has) Any
                (write_threshold p w (pos_part threshold) found) commit_row s
                (write_threshold-Has p w (pos_part threshold) found s h)
                (λ row s' h'. commit_row-Has row s' h'))
      ]
    ]
  ]

module _ (id : Uid) (s : Session) (v : IsValid s) where
  pub create_adjustment-Moves :
      (payload : InventoryAdjustmentRequest)
      → Moves false (status_at id s) (status_at id (rollback (create_adjustment payload s).1))
  create_adjustment-Moves payload =
      undone-Moves id s (create_adjustment payload s) v
        (create_adjustment-Has s.tables.orders payload s refl)
        (create_adjustment_effect payload s v)

  pub set_threshold-Moves :
      (p w : Uid) (threshold : ℤ)
      → Moves false (status_at id s) (status_at id (rollback (set_threshold p w threshold s).1))
  set_threshold-Moves p w threshold =
      undone-Moves id s (set_threshold p w threshold s) v
        (set_threshold-Has s.tables.orders p w threshold s refl)
        (set_threshold_effect p w threshold s v)
