-- ===== src/Services/Orders/Bill/Prices.antt =====
-- The products that `create_order` of src/services/order_service.py reads for its lines.
use inventory_reservation_or.Prelude.{
  ◌≡◌, refl, ap, true, List, [], ◌∷◌, ◌==◌, ==_refl, arith, Bool-cases, inl, inr,
}
use inventory_reservation_or.Models.{Uid, Product, OrderItemRequest}
use inventory_reservation_or.Table.{find, select}
use inventory_reservation_or.Repositories.Reservation.{is_among}
use inventory_reservation_or.Services.Orders.Create.{product_ids}
use inventory_reservation_or.Services.Orders.Bill.{price_of, price_in, quoted, cost}

-- The products that are read are those of the lines: each line finds its own.
find-among :
    (ids : List Uid) (id : Uid) (rows : List Product)
    → is_among ids id ≡ true
    → find (λ p. p.id == id) (select (λ p. is_among ids p.id) rows) ≡ find (λ p. p.id == id) rows
unfolding find select
find-among ids id [] h = refl
find-among ids id (p ∷ rows) h = elim (Bool-cases (p.id == id)) [
  | inl e ↦
      let same : p.id ≡ id = ground arith in
      let among : is_among ids p.id ≡ true = rw same h in rw (among, e) refl
  | inr n ↦ elim (Bool-cases (is_among ids p.id)) [
    | inl a ↦ rw (a, n) (find-among ids id rows h)
    | inr b ↦ rw (b, n) (find-among ids id rows h)
  ]
]

-- Nothing of a payload's prices depends on the products that it does not name.
module _ (ids : List Uid) (rows : List Product) where
  abbrev pub read : List Product
  read = select (λ p. is_among ids p.id) rows

  price_in-read : (id : Uid) → is_among ids id ≡ true → price_in read id ≡ price_in rows id
  price_in-read id h = ap price_of (find-among ids id rows h)

  abbrev pub AllAmong : List OrderItemRequest → Type 0
  AllAmong [] = Unit
  AllAmong (line ∷ lines) = (is_among ids line.product_id ≡ true) × AllAmong lines

  pub quoted-read :
      (lines : List OrderItemRequest) → AllAmong lines → quoted read lines ≡ quoted rows lines
  quoted-read [] h = refl
  quoted-read (line ∷ lines) h = rw (price_in-read line.product_id h.0, quoted-read lines h.1) refl

  pub cost-read :
      (lines : List OrderItemRequest) → AllAmong lines → cost read lines ≡ cost rows lines
  cost-read [] h = refl
  cost-read (line ∷ lines) h = rw (price_in-read line.product_id h.0, cost-read lines h.1) refl

is_among-head : (id : Uid) (ids : List Uid) → is_among (id ∷ ids) id ≡ true
is_among-head id ids = rw (==_refl id) refl

AllAmong-cons :
    (id : Uid) (ids : List Uid) (rows : List Product) (lines : List OrderItemRequest)
    → AllAmong ids rows lines
    → AllAmong (id ∷ ids) rows lines
AllAmong-cons id ids rows [] h = tt
AllAmong-cons id ids rows (line ∷ lines) h =
    (ground (arith, h.0), AllAmong-cons id ids rows lines h.1)

pub product_ids-AllAmong :
    (rows : List Product) (lines : List OrderItemRequest) → AllAmong (product_ids lines) rows lines
product_ids-AllAmong rows [] = tt
product_ids-AllAmong rows (line ∷ lines) = (
  is_among-head line.product_id (product_ids lines),
  AllAmong-cons line.product_id (product_ids lines) rows lines (product_ids-AllAmong rows lines),
)
