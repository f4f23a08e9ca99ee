-- ===== src/Stock/Books/Adjust.antt =====
-- `create_adjustment` of src/services/inventory_service.py, and the books.
use mathlib.Core.Path.{subst}
use inventory_reservation_or.Prelude.{
  fit, ◌≡◌, refl, sym, ap, ◌∙◌, Bool, true, false, not, ◌&&◌, Option, none, some, List, [], ◌∷◌,
  arith, ◌==◌, if◌then◌else◌, Bool-cases, Option-cases, inl, inr,
}
use inventory_reservation_or.Prelude.Int.{ℤ, pos, pos_part, is_negative, ◌+ℤ◌}
use inventory_reservation_or.Models.{
  Uid, Inventory, InventoryAdjustmentRequest, AuditEventType, Reference, InventoryAuditLog,
}
use inventory_reservation_or.Session.{Session, Tables, generate_id}
use inventory_reservation_or.Session.Ensures.{Ensures, bind-Ensures}
use inventory_reservation_or.Table.{find}
use inventory_reservation_or.Repositories.Inventory
use inventory_reservation_or.Repositories.Inventory.{is_at}
use inventory_reservation_or.Repositories.Catalog.{product_by_id, warehouse_by_id}
use inventory_reservation_or.Repositories.Logs.{record_audit}
use inventory_reservation_or.Services.Inventory.{check_low_stock_transition}
use inventory_reservation_or.Services.Adjustments.{
  change_stock, log_adjustment, create_adjustment, new_row,
}
use inventory_reservation_or.Stock.{
  IsConsistent, Consistent, IsUnique, posted, row_at, available_at, reserved_at,
}
use inventory_reservation_or.Stock.Rows.{
  row_at-update, update_where-IsUnique, rowcount-IsUnique, same_row,
}
use inventory_reservation_or.Stock.Books.Flags.{Books, check-Agree, check-books}
use inventory_reservation_or.Frames.{Frame, check-frame}
use inventory_reservation_or.Stock.Books.Valid.{IsValid, commit-IsValid}

abbrev stays_nonneg : ℤ → Inventory → Bool
stays_nonneg d r = not (is_negative (pos r.available_quantity +ℤ d))

abbrev adjusted : ℤ → Inventory → Inventory
adjusted d r = record r { available_quantity = pos_part (pos r.available_quantity +ℤ d) }

module _ (p w : Uid) (d : ℤ) (s : Session) (u : IsUnique s.tables.inventory) where
  -- An adjustment that is done changes what is available by its delta, for the one pair.
  adjust_moves :
      (Inventory.adjust_available p w d s).0 ≡ true
      → (p' w' : Uid)
      → let rows' = (Inventory.adjust_available p w d s).1.tables.inventory in
        (reserved_at p' w' rows' ≡ reserved_at p' w' s.tables.inventory)
        × ((if p == p' && w == w' then d else pos 0) +ℤ pos (available_at p' w' s.tables.inventory)
            ≡ pos (available_at p' w' rows'))
  unfolding Inventory.adjust_available ◌+ℤ◌
  adjust_moves done p' w' =
      let rows = s.tables.inventory in
      let count = rowcount-IsUnique p w (stays_nonneg d) rows u in
      rw (row_at-update p w (stays_nonneg d) (adjusted d) (λ r. refl) (λ r. refl) rows p' w')
        (ground (arith, same_row p w p' w' rows, count, done))

module _ (payload : InventoryAdjustmentRequest) where
  abbrev p : Uid
  p = payload.product_id

  abbrev w : Uid
  w = payload.warehouse_id

  abbrev d : ℤ
  d = payload.quantity

  -- Whatever entry is going to be written for the adjustment, the books agree with it written.
  abbrev Off : Tables → Session → Type 0
  Off c s =
      ((entry : InventoryAuditLog)
        → ((p' w' : Uid) → posted p' w' entry ≡ (if p == p' && w == w' then d else pos 0))
        → Consistent [] s.tables.inventory s.tables.reservations (entry ∷ s.tables.audit_logs))
      × (s.committed ≡ c)

  adjust-Off :
      (s : Session)
      → IsConsistent [] s.tables
      → (Inventory.adjust_available p w d s).0 ≡ true
      → Off s.committed (check_low_stock_transition p w d (Inventory.adjust_available p w d s).1).1
  unfolding Inventory.adjust_available
  adjust-Off s h done =
      let moves = adjust_moves p w d s h.unique_rows done in
      let s₁ = (Inventory.adjust_available p w d s).1 in
      let s₂ = (check_low_stock_transition p w d s₁).1 in
      let rows = s.tables.reservations in
      let logs = s.tables.audit_logs in
      (
        (λ entry post.
            subst (λ (b : Books). Consistent [] s₂.tables.inventory b.0 (entry ∷ b.1))
              (sym (check-books p w d s₁))
              (check-Agree [] rows (entry ∷ logs) p w d s₁ (record {
                unique_rows =
                    update_where-IsUnique _ (adjusted d) (λ r. refl) (λ r. refl) s.tables.inventory
                      h.unique_rows;
                unique_ids = h.unique_ids;
                balance = λ p' w'. (moves p' w').0 ∙ h.balance p' w';
                explained = λ p' w'. rw (post p' w', h.explained p' w') (moves p' w').1;
              }))),
        ap (λ (f : Frame). f.0.0) (check-frame p w d s₁),
      )

  -- A row for a pair that had none changes what is available of that pair alone.
  module _ (id : Uid) (rows : List Inventory) (absent : row_at p w rows ≡ none) (p' w' : Uid) where
    new-reserved_at :
        reserved_at p' w' (new_row id p w (pos_part d) ∷ rows) ≡ reserved_at p' w' rows
    unfolding find
    new-reserved_at = elim (Bool-cases (p == p' && w == w')) [
      | inl e ↦ rw (e, same_row p w p' w' rows e, absent) refl
      | inr e ↦ rw e refl
    ]

    new-available_at :
        is_negative d ≡ false
        → (if p == p' && w == w' then d else pos 0) +ℤ pos (available_at p' w' rows)
          ≡ pos (available_at p' w' (new_row id p w (pos_part d) ∷ rows))
    unfolding find ◌+ℤ◌
    new-available_at nonneg = elim (Bool-cases (p == p' && w == w')) [
      | inl e ↦ rw (e, same_row p w p' w' rows e, absent) (ground arith)
      | inr e ↦ rw e (ground arith)
    ]

  create-Off :
      (id : Uid) (s : Session)
      → IsConsistent [] s.tables
      → row_at p w s.tables.inventory ≡ none
      → is_negative d ≡ false
      → (found : Option Inventory)
      → Ensures
          (λ _. Off s.committed)
          (λ s'. s'.committed ≡ s.committed)
          (Inventory.add_unless (new_row id p w (pos_part d)) found s)
  create-Off id s h absent nonneg (some r) = refl
  create-Off id s h absent nonneg none = (
    (λ entry post. record {
      unique_rows = (absent, h.unique_rows);
      unique_ids = h.unique_ids;
      balance = λ p' w'. new-reserved_at id s.tables.inventory absent p' w' ∙ h.balance p' w';
      explained = λ p' w'.
          rw (post p' w', h.explained p' w')
            (new-available_at id s.tables.inventory absent p' w' nonneg);
    }),
    refl,
  )

  abbrev StillCommitted : Tables → Session → Type 0
  StillCommitted c s = s.committed ≡ c

  exists-Off :
      (row : Inventory) (s : Session)
      → IsConsistent [] s.tables
      → Ensures
          (λ _. Off s.committed)
          (StillCommitted s.committed)
          (change_stock payload (some row) s)
  unfolding change_stock Inventory.adjust_available
  exists-Off row s h = elim (Bool-cases ((Inventory.adjust_available p w d s).0)) [
    | inl done ↦ rw done (adjust-Off s h done)
    | inr refused ↦ rw refused refl
  ]

  change_stock-Off :
      (found : Option Inventory) (s : Session)
      → IsConsistent [] s.tables
      → row_at p w s.tables.inventory ≡ found
      → Ensures (λ _. Off s.committed) (StillCommitted s.committed) (change_stock payload found s)
  unfolding change_stock Inventory.create generate_id
  change_stock-Off (some row) s h e = exists-Off row s h
  change_stock-Off none s h e = elim (Bool-cases (is_negative d)) [
    | inl negative ↦ rw negative refl
    | inr nonneg ↦ rw nonneg (create-Off (s.uuids s.drawn) (generate_id s).1 h e nonneg _)
  ]

  log_adjustment-IsValid :
      (row : Inventory) (c : Tables) (s : Session)
      → Off c s
      → Ensures (λ _. IsValid) (StillCommitted c) (log_adjustment payload row s)
  unfolding log_adjustment record_audit
  log_adjustment-IsValid row c s h = elim (Option-cases (fit 64 payload.reason)) [
    | inl long ↦ rw long h.1
    | inr (reference, fits) ↦
        let event_type =
          if is_negative d then AuditEventType.stock_removed else AuditEventType.stock_added in
        rw fits (
          commit-IsValid (record_audit p w d event_type (Reference.reason reference) s).1 (
            h.0 _ (λ p' w'. elim (Bool-cases (is_negative d)) [
              | inl negative ↦ rw negative refl
              | inr nonneg ↦ rw nonneg refl
            ])))
  ]

  -- An adjustment, from a session with agreeing books and nothing uncommitted, answers with the
  -- books in agreement and nothing uncommitted, or raises with nothing committed.
  pub create_adjustment_effect :
      (s : Session)
      → IsValid s
      → Ensures (λ _. IsValid) (StillCommitted s.committed) (create_adjustment payload s)
  unfolding create_adjustment Inventory.get
  create_adjustment_effect s v = elim (Option-cases (product_by_id p s)) [
    | inl e ↦ rw e refl
    | inr (product, e) ↦ elim (Option-cases (warehouse_by_id w s)) [
      | inl f ↦ rw (e, f) refl
      | inr (warehouse, f) ↦
          rw (e, f)
            (bind-Ensures (λ _. Off s.committed) (λ _. IsValid) (StillCommitted s.committed)
              (change_stock payload (row_at p w s.tables.inventory)) (log_adjustment payload) s
              (change_stock-Off _ s v.consistent refl)
              (λ row s' h. log_adjustment-IsValid row s.committed s' h))
    ]
  ]
