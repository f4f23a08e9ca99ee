-- ===== src/Api/Pages.antt =====
-- The pages of `list_orders` of src/services/order_service.py, with the number of pages that
-- src/api/orders.py tells.
pub mod Whole
use native.Mathlib.Nat.{lt-div-mul-add}
use inventory_reservation_or.Prelude.{
  ℕ, zero, suc, ◌+◌, ◌-◌, ◌*◌, ◌≤◌, ◌≡◌, refl, ap, ◌∙◌, Bool, true, false, Option, List, [], ◌∷◌,
  ◌++◌, arith, ◌==◌, Bool-cases, inl, inr,
}
use inventory_reservation_or.Prelude.Lists.{length, take, drop, All}
use inventory_reservation_or.Models.{Time, OrderStatus, User, Order}
use inventory_reservation_or.Session.{Session}
use inventory_reservation_or.Table.{select}
use inventory_reservation_or.Table.Sort.{order_by_desc, insert_desc, All-order_by_desc}
use inventory_reservation_or.Repositories.Order
use inventory_reservation_or.Repositories.Order.{OrderFilter, matches}
use inventory_reservation_or.Services.Orders.Cancel.{is_forbidden, list_orders, user_id_filter}
use inventory_reservation_or.Api.Orders.{total_pages}

module _ {A : Type 0} where
  take-length : (n : ℕ) (xs : List A) → length (take n xs) ≤ n
  take-length zero xs = omega arith
  take-length (suc n) [] = omega arith
  take-length (suc n) (x ∷ xs) = let h = take-length n xs in omega arith

  pub take-all : (n : ℕ) (xs : List A) → length xs ≤ n → take n xs ≡ xs
  take-all zero [] h = refl
  take-all zero (x ∷ xs) h = let no_room : ⊥ = omega arith in elim no_room [ ]
  take-all (suc n) [] h = refl
  take-all (suc n) (x ∷ xs) h = ap (λ ys. x ∷ ys) (take-all n xs (omega arith))

  -- What is taken first, and what is taken next.
  take-drop : (m n k : ℕ) (xs : List A) → k ≡ m + n → take m xs ++ take n (drop m xs) ≡ take k xs
  take-drop zero n k xs e = let same : n ≡ k = omega arith in rw same refl
  take-drop (suc m) zero zero [] e = refl
  take-drop (suc m) (suc n) zero [] e = refl
  take-drop (suc m) zero (suc k) [] e = refl
  take-drop (suc m) (suc n) (suc k) [] e = refl
  take-drop (suc m) n zero (x ∷ xs) e = let too_few : ⊥ = omega arith in elim too_few [ ]
  take-drop (suc m) n (suc k) (x ∷ xs) e = ap (λ ys. x ∷ ys) (take-drop m n k xs (omega arith))

  take-shorter : (n : ℕ) (xs : List A) → length (take n xs) ≤ length xs
  take-shorter zero xs = omega arith
  take-shorter (suc n) [] = omega arith
  take-shorter (suc n) (x ∷ xs) = let h = take-shorter n xs in omega arith

  drop-shorter : (n : ℕ) (xs : List A) → length (drop n xs) ≤ length xs
  drop-shorter zero xs = omega arith
  drop-shorter (suc n) [] = omega arith
  drop-shorter (suc n) (x ∷ xs) = let h = drop-shorter n xs in omega arith

  -- What the test of a SELECT implies holds of the rows that it finds.
  All-matching :
      (P : A → Type 0) (test : A → Bool)
      → ((x : A) → test x ≡ true → P x)
      → (rows : List A) → All P (select test rows)
  unfolding select
  All-matching P test h [] = tt
  All-matching P test h (x ∷ rows) = elim (Bool-cases (test x)) [
    | inl e ↦ rw e (h x e, All-matching P test h rows)
    | inr e ↦ rw e (All-matching P test h rows)
  ]

  All-take : (P : A → Type 0) (n : ℕ) (xs : List A) → All P xs → All P (take n xs)
  All-take P zero xs h = tt
  All-take P (suc n) [] h = tt
  All-take P (suc n) (x ∷ xs) h = (h.0, All-take P n xs h.1)

  All-drop : (P : A → Type 0) (n : ℕ) (xs : List A) → All P xs → All P (drop n xs)
  All-drop P zero xs h = h
  All-drop P (suc n) [] h = tt
  All-drop P (suc n) (x ∷ xs) h = All-drop P n xs h.1

  insert_desc-length :
      (column : A → ℕ) (x : A) (xs : List A) → length (insert_desc column x xs) ≡ suc (length xs)
  unfolding insert_desc
  insert_desc-length column x [] = refl
  insert_desc-length column x (y ∷ ys) = ground (arith, insert_desc-length column x ys)

  pub order_by_desc-length :
      (column : A → ℕ) (xs : List A) → length (order_by_desc column xs) ≡ length xs
  unfolding order_by_desc
  order_by_desc-length column [] = refl
  order_by_desc-length column (x ∷ xs) =
      insert_desc-length column x (order_by_desc column xs)
      ∙ ap suc (order_by_desc-length column xs)

  -- The first pages, one after the other
  abbrev pub pages : (ℕ → List A) → ℕ → List A
  pages page zero = []
  pages page (suc n) = pages page n ++ page (suc n)

  pub pages-take :
      (limit : ℕ) (xs : List A) (n : ℕ)
      → pages (λ page. take limit (drop ((page - 1) * limit) xs)) n ≡ take (n * limit) xs
  pages-take limit xs zero = let none_taken : 0 * limit ≡ 0 = omega arith in rw none_taken refl
  pages-take limit xs (suc n) =
      let previous : suc n - 1 ≡ n = omega arith in
      let next : suc n * limit ≡ n * limit + limit = omega arith in
      ap (λ ys. ys ++ take limit (drop ((suc n - 1) * limit) xs)) (pages-take limit xs n)
      ∙ ap (λ (k : ℕ). take (n * limit) xs ++ take limit (drop (k * limit) xs)) previous
      ∙ take-drop (n * limit) limit (suc n * limit) xs next

-- So many pages hold them all.
pub total_pages-enough : (total limit : ℕ) → 1 ≤ limit → total ≤ total_pages total limit * limit
unfolding total_pages
total_pages-enough total limit h = elim (Bool-cases (total == 0)) [
  | inl e ↦ ground arith
  | inr e ↦ let bound = lt-div-mul-add {a = total + limit - 1} {b = limit} h in rw e (omega arith)
]

module _ (user : User) (status : Option OrderStatus)
    (created_after created_before : Option Time) where
  abbrev pub filter_of : OrderFilter
  filter_of = record {
    status = status;
    created_after = created_after;
    created_before = created_before;
    user_id_filter = user_id_filter user;
  }

  -- The orders that the filter and the user's role let through, newest first
  abbrev pub all_orders : Session → List Order
  all_orders s = order_by_desc (λ o. o.created_at) (select (matches filter_of) s.tables.orders)

  -- A listed order, as the query asked and as the user may see it
  abbrev pub IsListed : Order → Type 0
  IsListed o = (is_forbidden o user ≡ false) × (matches filter_of o ≡ true)

  matches-IsListed : (o : Order) → matches filter_of o ≡ true → IsListed o
  matches-IsListed o h = ground (arith, h)

  -- A page of orders has no more of them than the limit and than the total that is told with it,
  -- and each passes the filters and is one that the user is not forbidden to see.
  pub list_orders-IsListed :
      (page limit : ℕ) (s : Session)
      → let (orders, total) = list_orders user status created_after created_before page limit s in
        (length orders ≤ limit) × (length orders ≤ total) × All IsListed orders
  unfolding list_orders Order.list_orders
  list_orders-IsListed page limit s =
      let found = select (matches filter_of) s.tables.orders in
      let sorted = all_orders s in
      let rest = drop ((page - 1) * limit) sorted in
      let listed =
        All-order_by_desc (λ o. o.created_at) IsListed found
          (All-matching IsListed (matches filter_of) matches-IsListed s.tables.orders) in
      let same = order_by_desc-length (λ (o : Order). o.created_at) found in
      let fewer = take-shorter limit rest in
      let fewest = drop-shorter ((page - 1) * limit) sorted in
      (
        take-length limit rest,
        omega arith,
        All-take IsListed limit rest (All-drop IsListed ((page - 1) * limit) sorted listed),
      )
