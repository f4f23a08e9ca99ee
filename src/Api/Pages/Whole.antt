-- ===== src/Api/Pages/Whole.antt =====
-- All pages of `list_orders` of src/services/order_service.py together, each from a query of its own
-- that may meet the stored rows in another order.
use mathlib.Core.List.{Permᴰ}
use mathlib.Core.List.Permᴰ
use inventory_reservation_or.Prelude.{
  ℕ, zero, suc, ◌-◌, ◌*◌, ◌≤◌, ◌≡◌, refl, sym, ap, ◌∙◌, Bool, true, not, ◌&&◌, Option, none, some,
  List, [], ◌∷◌, arith, leb,
}
use inventory_reservation_or.Prelude.Lists.{length, take, drop}
use inventory_reservation_or.Models.{Time, OrderStatus, User, Order}
use inventory_reservation_or.Session.{Session}
use inventory_reservation_or.Table.{select}
use inventory_reservation_or.Table.Sort.{order_by_desc}
use inventory_reservation_or.Table.Arranged.{
  AreDistinct, AreDescending, select-perm, order_by_desc-eq, order_by_desc-perm,
  order_by_desc-AreDescending,
}
use inventory_reservation_or.Repositories.Order
use inventory_reservation_or.Repositories.Order.{matches, has_status}
use inventory_reservation_or.Services.Orders.Cancel.{is_forbidden, list_orders}
use inventory_reservation_or.Api.Orders.{total_pages}
use inventory_reservation_or.Api.Pages.{
  filter_of, pages, pages-take, take-all, total_pages-enough, order_by_desc-length,
}

pages-eq : {A : Type 0} (f g : ℕ → List A) → ((p : ℕ) → f p ≡ g p) → (n : ℕ) → pages f n ≡ pages g n
pages-eq f g same zero = refl
pages-eq f g same (suc n) = rw (pages-eq f g same n, same (suc n)) refl

select-eq :
    {A : Type 0} (f g : A → Bool)
    → ((a : A) → f a ≡ g a)
    → (rows : List A) → select f rows ≡ select g rows
unfolding select
select-eq f g same [] = refl
select-eq f g same (r ∷ rows) = rw (same r, select-eq f g same rows) refl

module _ (user : User) (status : Option OrderStatus)
    (created_after created_before : Option Time) where
  abbrev asked_status : OrderStatus → Bool
  asked_status s = elim status [ none ↦ true | some t ↦ has_status t s ]

  abbrev asked_time : Time → Bool
  asked_time t =
      elim created_after [ none ↦ true | some from ↦ leb from t ]
      && elim created_before [ none ↦ true | some to ↦ leb t to ]

  -- As the query asks for it, and not forbidden to the user.
  abbrev pub is_listed : Order → Bool
  is_listed o = asked_status o.status && asked_time o.created_at && not (is_forbidden o user)

  matches-is_listed :
      (o : Order) → matches (filter_of user status created_after created_before) o ≡ is_listed o
  matches-is_listed o = ground arith

  abbrev created : Order → ℕ
  created o = o.created_at

  -- The orders that there are to list.
  abbrev pub listed : Session → List Order
  listed s = select is_listed s.tables.orders

  found-sorted :
      (s t : Session)
      → Permᴰ t.tables.orders s.tables.orders
      → AreDistinct created (listed s)
      → order_by_desc created
          (select (matches (filter_of user status created_after created_before)) t.tables.orders)
        ≡ order_by_desc created (listed s)
  found-sorted s t d h =
      ap (order_by_desc created) (select-eq _ is_listed matches-is_listed t.tables.orders)
      ∙ sym (order_by_desc-eq created (Permᴰ.symm (select-perm is_listed d)) h)

  -- For a limit of at least one, if no two of the orders that the query asks for and that the user
  -- is not forbidden to see were created at the same time, then the pages from the first to the
  -- last that is counted hold, one after the other, each of these orders exactly once and newest
  -- first, although each page's query may meet the stored rows in another order.
  pub list_orders-pages :
      (limit : ℕ) (s : Session) (at : ℕ → Session)
      → 1 ≤ limit
      → ((page : ℕ) → Permᴰ (at page).tables.orders s.tables.orders)
      → AreDistinct created (listed s)
      → let answer : ℕ → List Order × ℕ =
          λ page. list_orders user status created_after created_before page limit (at page) in
        let whole = pages (λ page. (answer page).0) (total_pages (answer 1).1 limit) in
        Permᴰ whole (listed s) × AreDescending created whole
  unfolding list_orders Order.list_orders
  list_orders-pages limit s at h same distinct =
      let sorted = order_by_desc created (listed s) in
      let found =
        select (matches (filter_of user status created_after created_before))
          (at 1).tables.orders in
      let n = total_pages (length found) limit in
      let counted : length found ≡ length sorted =
        sym (order_by_desc-length created found)
        ∙ ap length (found-sorted s (at 1) (same 1) distinct) in
      let enough = total_pages-enough (length found) limit h in
      let whole =
        pages-eq _ (λ page. take limit (drop ((page - 1) * limit) sorted))
          (λ page.
            ap (λ xs. take limit (drop ((page - 1) * limit) xs))
              (found-sorted s (at page) (same page) distinct))
          n
        ∙ pages-take limit sorted n
        ∙ take-all (n * limit) sorted (omega arith) in
      rw whole
        (order_by_desc-perm created (listed s), order_by_desc-AreDescending created (listed s))
