-- ===== src/Stock/Level.antt =====
-- What `set_threshold` of src/services/low_stock_service.py answers with, and what it stores.
use inventory_reservation_or.Prelude.{
  ℕ, ◌≡◌, refl, true, Option, none, some, leb, ==_refl, arith, Bool-cases, Option-cases, inl, inr,
}
use inventory_reservation_or.Prelude.Int.{ℤ, pos_part, is_negative}
use inventory_reservation_or.Models.{Uid, Inventory}
use inventory_reservation_or.Session.{Session, commit, generate_id}
use inventory_reservation_or.Session.Ensures.{Ensures, bind-Ensures}
use inventory_reservation_or.Table.{find}
use inventory_reservation_or.Table.Laws.{find-update_where, find_sound}
use inventory_reservation_or.Repositories.Inventory
use inventory_reservation_or.Repositories.Inventory.{is_at}
use inventory_reservation_or.Repositories.Catalog.{product_by_id, warehouse_by_id}
use inventory_reservation_or.Services.Adjustments.{reread}
use inventory_reservation_or.Services.LowStock.{low_row, write_threshold, commit_row, set_threshold}

-- The row is the one that the pair has on the session, with the threshold and its flag.
pub record IsLevel (product_id warehouse_id : Uid) (threshold : ℕ) (row : Inventory) (s : Session)
    : Type 0 where
  pub stored : Inventory.get product_id warehouse_id s ≡ some row
  pub level : row.low_stock_threshold ≡ some threshold
  pub flag : row.is_low_stock ≡ leb row.available_quantity threshold

module _ (p w : Uid) (t : ℕ) where
  abbrev levelled : Inventory → Inventory
  levelled r = record r { low_stock_threshold = some t; is_low_stock = leb r.available_quantity t }

  is_at-product_id : (row : Inventory) → is_at p w row ≡ true → row.product_id ≡ p
  is_at-product_id row h = ground arith

  is_at-warehouse_id : (row : Inventory) → is_at p w row ≡ true → row.warehouse_id ≡ w
  is_at-warehouse_id row h = ground arith

  -- A row of the pair, read again by its key, is the row that the pair has.
  reread-IsLevel :
      (old row : Inventory) (s : Session)
      → is_at p w old ≡ true
      → IsLevel p w t row s
      → IsLevel p w t (reread old s) s
  unfolding Inventory.get
  reread-IsLevel old row s own h =
      rw (is_at-product_id old own, is_at-warehouse_id old own, h.stored) h

  create-IsLevel :
      (id : Uid) (found : Option Inventory) (s : Session)
      → Ensures (IsLevel p w t) (λ _. Unit) (Inventory.add_unless (low_row id p w t) found s)
  unfolding Inventory.get find
  create-IsLevel id (some clash) s = tt
  create-IsLevel id none s = record {
    stored = rw (==_refl p, ==_refl w) refl;
    level = refl;
    flag = ground arith;
  }

  write_threshold-IsLevel :
      (found : Option Inventory) (s : Session)
      → Inventory.get p w s ≡ found
      → Ensures (IsLevel p w t) (λ _. Unit) (write_threshold p w t found s)
  unfolding write_threshold Inventory.create Inventory.set_threshold generate_id Inventory.get
  write_threshold-IsLevel none s e = create-IsLevel (s.uuids s.drawn) _ (generate_id s).1
  write_threshold-IsLevel (some row) s e =
      let own = find_sound (is_at p w) s.tables.inventory e in
      reread-IsLevel row (levelled row) (Inventory.set_threshold p w t s).1 own (record {
        stored =
            rw
              (
                find-update_where (is_at p w) (is_at p w) levelled (λ r. refl) s.tables.inventory,
                e,
                own,
              )
              refl;
        level = refl;
        flag = refl;
      })

  commit_row-IsLevel :
      (row : Inventory) (s : Session)
      → IsLevel p w t row s
      → Ensures (IsLevel p w t) (λ _. Unit) (commit_row row s)
  unfolding commit Inventory.get
  commit_row-IsLevel row s h =
      let own = find_sound (is_at p w) s.tables.inventory h.stored in
      reread-IsLevel row row (commit s).1 own
        (record { stored = h.stored; level = h.level; flag = h.flag })

-- The row that a setting of a threshold answers with is the one that the pair then has, with that
-- threshold, and with a low-stock flag that says whether its available quantity does not exceed
-- it.
pub set_threshold-IsLevel :
    (product_id warehouse_id : Uid) (threshold : ℤ) (s : Session)
    → Ensures
        (IsLevel product_id warehouse_id (pos_part threshold))
        (λ _. Unit)
        (set_threshold product_id warehouse_id threshold s)
unfolding set_threshold
set_threshold-IsLevel p w threshold s = elim (Bool-cases (is_negative threshold)) [
  | inl n ↦ rw n tt
  | inr n ↦ elim (Option-cases (product_by_id p s)) [
    | inl e ↦ rw (n, e) tt
    | inr (product, e) ↦ elim (Option-cases (warehouse_by_id w s)) [
      | inl f ↦ rw (n, e, f) tt
      | inr (warehouse, f) ↦
          let t = pos_part threshold in
          rw (n, e, f)
            (bind-Ensures (IsLevel p w t) (IsLevel p w t) (λ _. Unit)
              (write_threshold p w t (Inventory.get p w s)) commit_row s
              (write_threshold-IsLevel p w t _ s refl) (commit_row-IsLevel p w t))
    ]
  ]
]
