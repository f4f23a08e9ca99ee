-- ===== src/Api/Accepted.antt =====
-- Which bodies of `POST /orders` the schema of src/schemas/order.py accepts.
use inventory_reservation_or.Prelude.{
  ◌≤◌, ◌≡◌, refl, ap, ◌∙◌, String, true, false, Option, none, some, List, [], ◌∷◌, ◌==◌, arith,
  Bool-cases, ltb, inl, inr,
}
use mathlib.Core.Path.{subst}
use inventory_reservation_or.Prelude.Int.{ℤ, pos, negsuc, pos_part, is_positive}
use inventory_reservation_or.Prelude.Lists.{length}
use inventory_reservation_or.Models.{Uid, OrderItemRequest, OrderCreateRequest}
use inventory_reservation_or.Repositories.Reservation.{is_among}
use inventory_reservation_or.Api.Requests.{
  OrderItemBody, OrderBody, parse_item, cons?, parse_items, set_of, ids_in, no_duplicate_products,
  check_items, parse_order,
}

-- No id twice
abbrev pub AreDistinct : List Uid → Type 0
AreDistinct [] = Unit
AreDistinct (id ∷ ids) = (is_among ids id ≡ false) × AreDistinct ids

-- The lines of the order are the items of the body, each with a quantity of at least one.
abbrev pub AreLines : List OrderItemBody → List OrderItemRequest → Type 0
AreLines [] [] = Unit
AreLines (body ∷ bodies) (line ∷ lines) =
    (body.product_id ≡ line.product_id)
    × (body.quantity ≡ pos line.quantity)
    × (1 ≤ line.quantity)
    × AreLines bodies lines
AreLines _ _ = ⊥

pub record IsAccepted (body : OrderBody) (payload : OrderCreateRequest) : Type 0 where
  pub lines : AreLines body.items payload.items
  pub some_line : 1 ≤ length payload.items
  pub distinct : AreDistinct (ids_in payload.items)
  pub token : body.payment_token ≡ payload.payment_token

set_of-length : (ids : List Uid) → length (set_of ids) ≤ length ids
unfolding set_of
set_of-length [] = omega arith
set_of-length (id ∷ ids) = ground (arith, set_of-length ids)

set_of-AreDistinct : (ids : List Uid) → length ids ≡ length (set_of ids) → AreDistinct ids
unfolding set_of
set_of-AreDistinct [] h = tt
set_of-AreDistinct (id ∷ ids) h = ground (arith, set_of-length ids, set_of-AreDistinct ids)

AreDistinct-set_of : (ids : List Uid) → AreDistinct ids → length ids ≡ length (set_of ids)
unfolding set_of
AreDistinct-set_of [] h = refl
AreDistinct-set_of (id ∷ ids) h = ground (arith, AreDistinct-set_of ids h.1)

-- The line is the item of the body.
abbrev IsLine : OrderItemBody → OrderItemRequest → Type 0
IsLine body line =
    (body.product_id ≡ line.product_id) × (body.quantity ≡ pos line.quantity) × (1 ≤ line.quantity)

positive : (q : ℤ) → is_positive q ≡ true → (q ≡ pos (pos_part q)) × (1 ≤ pos_part q)
positive (pos n) h = (refl, ground arith)
positive (negsuc n) h = cc

parse_item-IsLine :
    (body : OrderItemBody) (line : OrderItemRequest)
    → parse_item body ≡ some line
    → IsLine body line
parse_item-IsLine body line h = elim (Bool-cases (is_positive body.quantity)) [
  | inl p ↦
      let parsed : OrderItemRequest = record {
        product_id = body.product_id;
        quantity = pos_part body.quantity;
      } in
      let e : some parsed ≡ some line = rw p at h in
      let same : parsed ≡ line = cc in
      let q = positive body.quantity p in
      subst (λ (l : OrderItemRequest). IsLine body l) same (refl, q.0, q.1)
  | inr n ↦ let e : none ≡ some line = rw n at h in cc
]

IsLine-parse_item :
    (body : OrderItemBody) (line : OrderItemRequest)
    → IsLine body line
    → parse_item body ≡ some line
IsLine-parse_item body line h =
    let least : 1 ≤ line.quantity = h.2 in
    let p : ltb 0 line.quantity ≡ true = ground arith in rw (h.1, h.0, p) refl

cons?-AreLines :
    (body : OrderItemBody) (bodies : List OrderItemBody) (line : Option OrderItemRequest)
    (rest : Option (List OrderItemRequest)) (lines : List OrderItemRequest)
    → parse_item body ≡ line
    → ((ls : List OrderItemRequest) → rest ≡ some ls → AreLines bodies ls)
    → cons? line rest ≡ some lines
    → AreLines (body ∷ bodies) lines
cons?-AreLines body bodies none none lines e k h = cc
cons?-AreLines body bodies none (some ls) lines e k h = cc
cons?-AreLines body bodies (some line) none lines e k h = cc
cons?-AreLines body bodies (some line) (some ls) lines e k h =
    let same : line ∷ ls ≡ lines = cc in
    let l = parse_item-IsLine body line e in
    subst (AreLines (body ∷ bodies)) same (l.0, l.1, l.2, k ls refl)

parse_items-AreLines :
    (bodies : List OrderItemBody) (lines : List OrderItemRequest)
    → parse_items bodies ≡ some lines
    → AreLines bodies lines
unfolding parse_items
parse_items-AreLines [] [] h = tt
parse_items-AreLines [] (line ∷ lines) h = cc
parse_items-AreLines (body ∷ bodies) lines h =
    cons?-AreLines body bodies (parse_item body) (parse_items bodies) lines refl
      (parse_items-AreLines bodies) h

AreLines-parse_items :
    (bodies : List OrderItemBody) (lines : List OrderItemRequest)
    → AreLines bodies lines
    → parse_items bodies ≡ some lines
unfolding parse_items
AreLines-parse_items [] [] h = refl
AreLines-parse_items [] (line ∷ lines) h = elim h [ ]
AreLines-parse_items (body ∷ bodies) [] h = elim h [ ]
AreLines-parse_items (body ∷ bodies) (line ∷ lines) h =
    rw (IsLine-parse_item body line (h.0, h.1, h.2), AreLines-parse_items bodies lines h.3) refl

check_items-IsAccepted :
    (body : OrderBody) (parsed : Option (List OrderItemRequest)) (payload : OrderCreateRequest)
    → parse_items body.items ≡ parsed
    → check_items body.payment_token parsed ≡ some payload
    → IsAccepted body payload
unfolding no_duplicate_products
check_items-IsAccepted body none payload e h = cc
check_items-IsAccepted body (some []) payload e h = cc
check_items-IsAccepted body (some (line ∷ lines)) payload e h =
    elim (Bool-cases (no_duplicate_products (line ∷ lines))) [
      | inl d ↦
          let accepted : OrderCreateRequest = record {
            items = line ∷ lines;
            payment_token = body.payment_token;
          } in
          let found : some accepted ≡ some payload = rw d at h in
          let same : accepted ≡ payload = cc in
          subst (IsAccepted body) same (record {
            lines = parse_items-AreLines body.items (line ∷ lines) e;
            some_line = omega arith;
            distinct = set_of-AreDistinct (ids_in (line ∷ lines)) (ground arith);
            token = refl;
          })
      | inr n ↦ let e : none ≡ some payload = rw n at h in cc
    ]

-- A body that the schema accepts as an order has the order's payment token and, line by line, its
-- products and quantities; there is at least one line, every quantity is at least one, and no
-- product stands twice.
pub parse_order-IsAccepted :
    (body : OrderBody) (payload : OrderCreateRequest)
    → parse_order body ≡ some payload
    → IsAccepted body payload
unfolding parse_order
parse_order-IsAccepted body payload h =
    check_items-IsAccepted body (parse_items body.items) payload refl h

abbrev accepted_as : List OrderItemRequest → String → OrderCreateRequest
accepted_as lines token = record { items = lines; payment_token = token }

check_items-some :
    (token : String) (lines : List OrderItemRequest)
    → 1 ≤ length lines
    → AreDistinct (ids_in lines)
    → check_items token (some lines) ≡ some (record { items = lines; payment_token = token })
unfolding no_duplicate_products
check_items-some token [] n d = ground arith
check_items-some token (line ∷ lines) n d =
    let same = AreDistinct-set_of (ids_in (line ∷ lines)) d in
    let passes : (length (ids_in (line ∷ lines)) == length (set_of (ids_in (line ∷ lines))))
        ≡ true =
      ground (arith) in
    rw passes refl

-- The schema accepts a body as an order whenever the order has its payment token and, line by
-- line, its products and quantities, with at least one line, quantities of at least one and no
-- product twice.
pub IsAccepted-parse_order :
    (body : OrderBody) (payload : OrderCreateRequest)
    → IsAccepted body payload
    → parse_order body ≡ some payload
unfolding parse_order
IsAccepted-parse_order body payload a =
    ap (check_items body.payment_token) (AreLines-parse_items body.items payload.items a.lines)
    ∙ check_items-some body.payment_token payload.items a.some_line a.distinct
    ∙ ap (λ (t : String). some (accepted_as payload.items t)) a.token
