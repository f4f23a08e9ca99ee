-- ===== src/Stock/Books/Threshold.antt =====
-- `set_threshold` of src/services/low_stock_service.py, and the books.
use inventory_reservation_or.Prelude.{
  ℕ, ◌≡◌, refl, ap, sym, ◌∙◌, ◌&&◌, Option, none, some, List, [], ◌∷◌, ◌==◌, Bool-cases,
  Option-cases, inl, inr,
}
use inventory_reservation_or.Prelude.Int.{ℤ, pos, pos_part, is_negative}
use inventory_reservation_or.Models.{Uid, Inventory}
use inventory_reservation_or.Session.{Session, Tables, generate_id}
use inventory_reservation_or.Session.Ensures.{Ensures, bind-Ensures}
use inventory_reservation_or.Table.{find}
use inventory_reservation_or.Repositories.Inventory
use inventory_reservation_or.Repositories.Inventory.{is_at}
use inventory_reservation_or.Repositories.Catalog.{product_by_id, warehouse_by_id}
use inventory_reservation_or.Services.LowStock.{low_row, write_threshold, commit_row, set_threshold}
use inventory_reservation_or.Stock.{IsConsistent, row_at, available_at, reserved_at}
use inventory_reservation_or.Stock.Rows.{same_row}
use inventory_reservation_or.Stock.Books.Flags.{update_where-Consistent}
use inventory_reservation_or.Stock.Books.Valid.{IsValid, commit-IsValid}

module _ (p w : Uid) where
  -- A threshold for a pair that had no row: the new row holds nothing.
  module _ (id : Uid) (t : ℕ) (rows : List Inventory) (absent : row_at p w rows ≡ none)
      (p' w' : Uid) where
    low-reserved_at : reserved_at p' w' (low_row id p w t ∷ rows) ≡ reserved_at p' w' rows
    unfolding find
    low-reserved_at = elim (Bool-cases (p == p' && w == w')) [
      | inl e ↦ rw (e, same_row p w p' w' rows e, absent) refl
      | inr e ↦ rw e refl
    ]

    low-available_at : available_at p' w' (low_row id p w t ∷ rows) ≡ available_at p' w' rows
    unfolding find
    low-available_at = elim (Bool-cases (p == p' && w == w')) [
      | inl e ↦ rw (e, same_row p w p' w' rows e, absent) refl
      | inr e ↦ rw e refl
    ]

  abbrev Agrees : Tables → Session → Type 0
  Agrees c s = IsConsistent [] s.tables × (s.committed ≡ c)

  abbrev StillCommitted : Tables → Session → Type 0
  StillCommitted c s = s.committed ≡ c

  create-Agrees :
      (id : Uid) (t : ℕ) (s : Session)
      → IsConsistent [] s.tables
      → row_at p w s.tables.inventory ≡ none
      → (found : Option Inventory)
      → Ensures
          (λ _. Agrees s.committed)
          (StillCommitted s.committed)
          (Inventory.add_unless (low_row id p w t) found s)
  create-Agrees id t s h absent (some r) = refl
  create-Agrees id t s h absent none =
      let rows = s.tables.inventory in
      (
        record {
          unique_rows = (absent, h.unique_rows);
          unique_ids = h.unique_ids;
          balance = λ p' w'. low-reserved_at id t rows absent p' w' ∙ h.balance p' w';
          explained =
              λ p' w'. h.explained p' w' ∙ ap pos (sym (low-available_at id t rows absent p' w'));
        },
        refl,
      )

  write_threshold-Agrees :
      (t : ℕ) (found : Option Inventory) (s : Session)
      → IsConsistent [] s.tables
      → row_at p w s.tables.inventory ≡ found
      → Ensures
          (λ _. Agrees s.committed)
          (StillCommitted s.committed)
          (write_threshold p w t found s)
  unfolding write_threshold Inventory.create generate_id Inventory.set_threshold
  write_threshold-Agrees t none s h e = create-Agrees (s.uuids s.drawn) t (generate_id s).1 h e _
  write_threshold-Agrees t (some row) s h e =
      (update_where-Consistent _ _ (λ r. refl) (λ r. refl) (λ r. refl) (λ r. refl) h, refl)

  commit_row-IsValid :
      (row : Inventory) (c : Tables) (s : Session)
      → Agrees c s
      → Ensures (λ _. IsValid) (StillCommitted c) (commit_row row s)
  commit_row-IsValid row c s h = commit-IsValid s h.0

  -- The setting of a threshold, from a session with agreeing books and nothing uncommitted,
  -- answers with the books in agreement and nothing uncommitted, or raises with nothing committed.
  pub set_threshold_effect :
      (threshold : ℤ) (s : Session)
      → IsValid s
      → Ensures (λ _. IsValid) (StillCommitted s.committed) (set_threshold p w threshold s)
  unfolding set_threshold Inventory.get
  set_threshold_effect threshold s v = elim (Bool-cases (is_negative threshold)) [
    | inl n ↦ rw n refl
    | inr n ↦ elim (Option-cases (product_by_id p s)) [
      | inl e ↦ rw (n, e) refl
      | inr (product, e) ↦ elim (Option-cases (warehouse_by_id w s)) [
        | inl f ↦ rw (n, e, f) refl
        | inr (warehouse, f) ↦
            rw (n, e, f)
              (bind-Ensures (λ _. Agrees s.committed) (λ _. IsValid) (StillCommitted s.committed)
                (write_threshold p w (pos_part threshold) (row_at p w s.tables.inventory))
                commit_row s (write_threshold-Agrees (pos_part threshold) _ s v.consistent refl)
                (λ row s' h. commit_row-IsValid row s.committed s' h))
      ]
    ]
  ]
