-- ===== src/Stock/Shelf/Refines.antt =====
-- The UPDATEs of src/repositories/inventory_repository.py against the abstract stock.
use mathlib.Core.Option
use inventory_reservation_or.Prelude.{
  ℕ, ◌≡◌, refl, sym, ap, ◌∙◌, Bool, true, false, ◌&&◌, Option, none, some, List, [], ◌∷◌, arith,
  ◌==◌, if◌then◌else◌, Bool-cases, inl, inr,
}
use inventory_reservation_or.Models.{Uid, Inventory}
use inventory_reservation_or.Session.{Session, St}
use inventory_reservation_or.Table.{rowcount, update_where}
use inventory_reservation_or.Repositories.Inventory
use inventory_reservation_or.Repositories.Inventory.{is_at, affects_one, execute_update}
use inventory_reservation_or.Stock.{IsUnique, row_at}
use inventory_reservation_or.Stock.Rows.{
  rowcount-IsUnique, row_at-update, update_where-IsUnique, hits, updated,
}
use inventory_reservation_or.Stock.Shelf.{
  Command, to_reserve, to_release, to_consume, to_adjust, Shelf, is_possible, moved, is_done,
  outcome, specified, executed, levels, shelf_of, specified_all, executed_all,
}

-- An action answers as the command does on the abstract stock, and leaves what it leaves.
record Refines (p w : Uid) (c : Command) (action : St Bool) (s : Session) : Type 0 where
  agrees :
      ((action s).0, shelf_of (action s).1.tables.inventory)
      ≡ specified p w c (shelf_of s.tables.inventory)
  unique : IsUnique (action s).1.tables.inventory

-- An UPDATE of one pair that does a command.
module _ (p w : Uid) (c : Command) (guard : Inventory → Bool) (f : Inventory → Inventory)
    (kp : (r : Inventory) → (f r).product_id ≡ r.product_id)
    (kw : (r : Inventory) → (f r).warehouse_id ≡ r.warehouse_id)
    (same_guard : (r : Inventory) → guard r ≡ is_possible c (levels r))
    (same_move : (r : Inventory) → levels (f r) ≡ moved c (levels r)) where
  abbrev update : St Bool
  update = affects_one (execute_update (λ r. is_at p w r && guard r) f)

  hits-is_done :
      (found : Option Inventory) → (hits guard found == 1) ≡ is_done c (Option.map levels found)
  hits-is_done none = refl
  hits-is_done (some r) = ground (arith, same_guard r)

  updated-outcome :
      (found : Option Inventory)
      → Option.map levels (updated guard f found) ≡ outcome c (Option.map levels found)
  updated-outcome none = refl
  updated-outcome (some r) = elim (Bool-cases (guard r)) [
    | inl e ↦
        let e' : is_possible c (levels r) ≡ true = sym (same_guard r) ∙ e in
        rw (e, e') (ap some (same_move r))
    | inr e ↦ let e' : is_possible c (levels r) ≡ false = sym (same_guard r) ∙ e in rw (e, e') refl
  ]

  update-is_done :
      (rows : List Inventory)
      → IsUnique rows
      → (rowcount (λ r. is_at p w r && guard r) rows == 1) ≡ is_done c (shelf_of rows p w)
  update-is_done rows u =
      ap (λ (n : ℕ). n == 1) (rowcount-IsUnique p w guard rows u) ∙ hits-is_done (row_at p w rows)

  update-outcome :
      (rows : List Inventory) (p' w' : Uid)
      → shelf_of (update_where (λ r. is_at p w r && guard r) f rows) p' w'
        ≡ (if p == p' && w == w' then outcome c (shelf_of rows p w) else shelf_of rows p' w')
  update-outcome rows p' w' =
      ap (Option.map levels) (row_at-update p w guard f kp kw rows p' w')
      ∙ elim (Bool-cases (p == p' && w == w')) [
        | inl e ↦ rw e (updated-outcome (row_at p w rows))
        | inr e ↦ rw e refl
      ]

  update-Refines : (s : Session) → IsUnique s.tables.inventory → Refines p w c update s
  update-Refines s u =
      let rows = s.tables.inventory in
      record {
        agrees = λ i. (update-is_done rows u i, λ p' w'. update-outcome rows p' w' i);
        unique = update_where-IsUnique _ f kp kw rows u;
      }

-- A command in the database refines the command on the abstract stock.
executed-Refines :
    (p w : Uid) (c : Command) (s : Session)
    → IsUnique s.tables.inventory
    → Refines p w c (executed p w c) s
unfolding executed Inventory.try_reserve Inventory.release Inventory.consume
    Inventory.adjust_available
executed-Refines p w (to_reserve q) s u =
    update-Refines p w (to_reserve q) _ _ (λ r. refl) (λ r. refl) (λ r. refl) (λ r. refl) s u
executed-Refines p w (to_release q) s u =
    update-Refines p w (to_release q) _ _ (λ r. refl) (λ r. refl) (λ r. refl) (λ r. refl) s u
executed-Refines p w (to_consume q) s u =
    update-Refines p w (to_consume q) _ _ (λ r. refl) (λ r. refl) (λ r. refl) (λ r. refl) s u
executed-Refines p w (to_adjust d) s u =
    update-Refines p w (to_adjust d) _ _ (λ r. refl) (λ r. refl) (λ r. refl) (λ r. refl) s u

-- Commands for any pairs and in any order, on a table with at most one row to a pair, give in the
-- database the answers that they give on the abstract stock, and leave the table with the
-- quantities that the abstract stock then has.
pub executed_all-refines :
    (commands : List (Uid × Uid × Command)) (s : Session)
    → IsUnique s.tables.inventory
    → let (dones, s') = executed_all commands s in
      (dones, shelf_of s'.tables.inventory) ≡ specified_all commands (shelf_of s.tables.inventory)
unfolding executed_all
executed_all-refines [] s u = refl
executed_all-refines ((p, w, c) ∷ commands) s u =
    let step = executed-Refines p w c s u in
    let rest = executed_all-refines commands (executed p w c s).1 step.unique in
    ap (λ (out : List Bool × Shelf). ((executed p w c s).0 ∷ out.0, out.1)) rest
    ∙ ap
        (λ (out : Bool × Shelf).
          (out.0 ∷ (specified_all commands out.1).0, (specified_all commands out.1).1))
        step.agrees
