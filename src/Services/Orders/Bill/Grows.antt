-- ===== src/Services/Orders/Bill/Grows.antt =====
-- The loop over the lines in `create_order` of src/services/order_service.py.
use inventory_reservation_or.Prelude.{
  ℕ, ◌+◌, ◌*◌, ◌≡◌, ap, ◌∙◌, sym, Option, none, some, List, [], ◌∷◌, ◌++◌, map, ◌==◌, arith,
  Bool-cases, Option-cases, inl, inr,
}
use mathlib.Core.List.{append_assoc, append-nil, map-append}
use inventory_reservation_or.Models.{
  Uid, Time, Product, OrderItemRequest, OrderItemResponse, Inventory,
}
use inventory_reservation_or.Session.{Session, generate_id}
use inventory_reservation_or.Session.Ensures.{Ensures, Ensures-weaken, bind-Ensures}
use inventory_reservation_or.Table.{find}
use inventory_reservation_or.Repositories.Inventory.{find_best_warehouse}
use inventory_reservation_or.Services.Inventory.{reserve}
use inventory_reservation_or.Services.Orders.Create.{
  Progress, to_item_response, reserve_in, reserve_line, reserve_lines,
}
use inventory_reservation_or.Services.Orders.Bill.{price_of, price_in, quoted, cost}

-- What the loop adds to the progress.
pub record Grows (products : List Product) (lines : List OrderItemRequest) (acc acc' : Progress)
    : Type 0 where
  pub items :
      map to_item_response acc'.order_items
      ≡ map to_item_response acc.order_items ++ quoted products lines
  pub total : acc'.total ≡ acc.total + cost products lines

module _ (products : List Product) (order_id : Uid) (expires_at : Time) where
  reserve_in-Grows :
      (line : OrderItemRequest) (product : Product) (found : Option Inventory) (acc : Progress)
      (s : Session)
      → find (λ p. p.id == line.product_id) products ≡ some product
      → Ensures
          (λ acc' _. Grows products (line ∷ []) acc acc')
          (λ _. Unit)
          (reserve_in order_id expires_at line product found acc s)
  unfolding reserve_in generate_id
  reserve_in-Grows line product none acc s e = tt
  reserve_in-Grows line product (some best) acc s e =
      let done = (reserve line.product_id best.warehouse_id line.quantity order_id s).0 in
      elim (Bool-cases done) [
        | inl d ↦ rw d (record {
          items =
              map-append to_item_response acc.order_items _
              ∙ ap
                  (λ (u : ℕ).
                    map to_item_response acc.order_items
                    ++ (record {
                      product_id = line.product_id;
                      quantity = line.quantity;
                      unit_price = u;
                    }
                        ∷ []))
                  (ap price_of (sym e));
          total =
              ap (λ (o : Option Product). acc.total + price_of o * line.quantity) (sym e)
              ∙ omega arith;
        })
        | inr d ↦ rw d tt
      ]

  reserve_line-Grows :
      (line : OrderItemRequest) (acc : Progress) (s : Session)
      → Ensures
          (λ acc' _. Grows products (line ∷ []) acc acc')
          (λ _. Unit)
          (reserve_line products order_id expires_at line acc s)
  unfolding reserve_line
  reserve_line-Grows line acc s =
      elim (Option-cases (find (λ p. p.id == line.product_id) products)) [
        | inl e ↦ rw e tt
        | inr (product, e) ↦ rw e (
            reserve_in-Grows line product (find_best_warehouse line.product_id line.quantity s) acc
              s e)
      ]

  Grows-step :
      (line : OrderItemRequest) (lines : List OrderItemRequest) (a b c : Progress)
      → Grows products (line ∷ []) a b
      → Grows products lines b c
      → Grows products (line ∷ lines) a c
  Grows-step line lines a b c h k = record {
    items =
        k.items
        ∙ ap (λ (xs : List OrderItemResponse). xs ++ quoted products lines) h.items
        ∙ append_assoc (map to_item_response a.order_items) (quoted products (line ∷ []))
            (quoted products lines);
    total =
        let first : b.total ≡ a.total + (price_in products line.product_id * line.quantity + 0) =
          h.total in
        let rest : c.total ≡ b.total + cost products lines = k.total in omega arith;
  }

  pub reserve_lines-Grows :
      (lines : List OrderItemRequest) (acc : Progress) (s : Session)
      → Ensures
          (λ acc' _. Grows products lines acc acc')
          (λ _. Unit)
          (reserve_lines products order_id expires_at lines acc s)
  unfolding reserve_lines
  reserve_lines-Grows [] acc s = record {
    items = sym (append-nil (map to_item_response acc.order_items));
    total = omega arith;
  }
  reserve_lines-Grows (line ∷ lines) acc s =
      bind-Ensures (λ acc' _. Grows products (line ∷ []) acc acc')
        (λ acc' _. Grows products (line ∷ lines) acc acc') (λ _. Unit)
        (reserve_line products order_id expires_at line acc)
        (reserve_lines products order_id expires_at lines) s (reserve_line-Grows line acc s)
        (λ acc' s' h.
          Ensures-weaken (λ c _. Grows products lines acc' c)
            (λ c _. Grows products (line ∷ lines) acc c) (λ _. Unit) (λ _. Unit) _
            (λ c t k. Grows-step line lines acc acc' c h k) (λ t u. u)
            (reserve_lines-Grows lines acc' s'))
