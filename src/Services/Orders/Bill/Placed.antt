-- ===== src/Services/Orders/Bill/Placed.antt =====
-- The response to a new order, from `create_order` of src/services/order_service.py.
use inventory_reservation_or.Prelude.{ℕ, ◌+◌, ◌≡◌, refl, ◌∙◌, Option, List, map, arith, String}
use inventory_reservation_or.Models.{
  OrderStatus, Product, User, OrderItemRequest, OrderCreateRequest, Order,
}
use inventory_reservation_or.Session.{Session, ◌>>=◌, lift, generate_id, now}
use inventory_reservation_or.Session.Ensures.{Ensures, Ensures-weaken, bind-Ensures}
use inventory_reservation_or.Repositories.Catalog.{get_many_by_ids}
use inventory_reservation_or.Repositories.Order
use inventory_reservation_or.Services.Idempotency.{IdempotencyClaim}
use inventory_reservation_or.Services.Orders.Create.{
  Progress, to_item_response, reserve_lines, store_order, announce, reserve_and_store, place_order,
  product_ids, create_reservations, no_progress, new_order, missing_ids, raise_if_missing,
}
use inventory_reservation_or.Services.Orders.Bill.{quoted, cost, IsBill, any}
use inventory_reservation_or.Services.Orders.Bill.Grows.{Grows, reserve_lines-Grows}
use inventory_reservation_or.Services.Orders.Bill.Prices.{
  read, quoted-read, cost-read, product_ids-AllAmong,
}

module _ (products : List Product) (lines : List OrderItemRequest) where
  announce-IsBill :
      (order : Order) (progress : Progress) (claim : Option IdempotencyClaim) (s : Session)
      → order.status ≡ OrderStatus.reserved
      → order.total ≡ cost products lines
      → map to_item_response progress.order_items ≡ quoted products lines
      → Ensures
          (λ response _. IsBill products lines response)
          (λ _. Unit)
          (announce order progress claim s)
  unfolding announce
  announce-IsBill order progress claim s a b c = record { status = a; items = c; total = b }

  store_order-IsBill :
      (order : Order) (progress : Progress) (claim : Option IdempotencyClaim) (s : Session)
      → order.status ≡ OrderStatus.reserved
      → order.total ≡ cost products lines
      → map to_item_response progress.order_items ≡ quoted products lines
      → Ensures
          (λ response _. IsBill products lines response)
          (λ _. Unit)
          (store_order order progress claim s)
  unfolding store_order
  store_order-IsBill order progress claim s a b c =
      bind-Ensures (λ _ _. Unit) (λ response _. IsBill products lines response) (λ _. Unit)
        (Order.create order progress.order_items)
        (λ _. (create_reservations progress.reservations >>= λ _. announce order progress claim)) s
        (any (Order.create order progress.order_items s))
        (λ _ s₁ _.
          bind-Ensures (λ _ _. Unit) (λ response _. IsBill products lines response) (λ _. Unit)
            (create_reservations progress.reservations) (λ _. announce order progress claim) s₁
            (any (create_reservations progress.reservations s₁))
            (λ _ s₂ _. announce-IsBill order progress claim s₂ a b c))

module _ (timeout : ℕ) (payload : OrderCreateRequest) (user : User) (key : Option String)
    (claim : Option IdempotencyClaim) where
  reserve_and_store-IsBill :
      (products : List Product) (s : Session)
      → Ensures
          (λ response _. IsBill products payload.items response)
          (λ _. Unit)
          (reserve_and_store timeout payload user key claim products s)
  unfolding reserve_and_store generate_id now
  reserve_and_store-IsBill products s =
      let order_id = (generate_id s).0 in
      let s₁ = (now (generate_id s).1).1 in
      let expires_at = (now (generate_id s).1).0 + timeout in
      bind-Ensures (λ progress _. Grows products payload.items no_progress progress)
        (λ response _. IsBill products payload.items response) (λ _. Unit)
        (reserve_lines products order_id expires_at payload.items no_progress)
        (λ progress.
          (lift now >>= λ created_at.
          store_order (new_order order_id payload user key progress.total created_at) progress
            claim))
        s₁ (reserve_lines-Grows products order_id expires_at payload.items no_progress s₁)
        (λ progress s₂ h.
          store_order-IsBill products payload.items
            (new_order order_id payload user key progress.total (now s₂).0) progress claim
            (now s₂).1 refl
            (let t : progress.total ≡ 0 + cost products payload.items = h.total in omega arith)
            h.items)

  -- An order that is placed, with or without an idempotency key, is answered as RESERVED with the
  -- lines of its payload in their order, each with its quantity and the stored price of its
  -- product, and with the sum of price times quantity as its total.
  pub place_order-IsBill :
      (s : Session)
      → Ensures
          (λ response _. IsBill s.tables.products payload.items response)
          (λ _. Unit)
          (place_order timeout payload user key claim s)
  unfolding place_order get_many_by_ids
  place_order-IsBill s =
      let ids = product_ids payload.items in
      let rows = s.tables.products in
      let among = product_ids-AllAmong rows payload.items in
      bind-Ensures (λ _ _. Unit) (λ response _. IsBill rows payload.items response) (λ _. Unit)
        (raise_if_missing (missing_ids (read ids rows) ids))
        (λ _. reserve_and_store timeout payload user key claim (read ids rows)) s
        (any (raise_if_missing (missing_ids (read ids rows) ids) s))
        (λ _ s₁ _.
          Ensures-weaken (λ response _. IsBill (read ids rows) payload.items response)
            (λ response _. IsBill rows payload.items response) (λ _. Unit) (λ _. Unit) _
            (λ response t b. record {
              status = b.status;
              items = b.items ∙ quoted-read ids rows payload.items among;
              total = b.total ∙ cost-read ids rows payload.items among;
            })
            (λ t u. u) (reserve_and_store-IsBill (read ids rows) s₁))
