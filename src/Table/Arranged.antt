-- ===== src/Table/Arranged.antt =====
-- ORDER BY over rows that a query returns in whatever order: with no two rows alike in the column,
-- the result is one list.
use mathlib.Core.Path.{subst}
use mathlib.Core.List.{Permᴰ}
use mathlib.Core.List.Permᴰ
use inventory_reservation_or.Prelude.{
  ℕ, ◌≤◌, ◌≡◌, ◌≢◌, refl, sym, ap, ◌∙◌, Bool, List, [], ◌∷◌, arith, leb, Bool-cases, inl, inr,
}
use inventory_reservation_or.Prelude.Lists.{All}
use inventory_reservation_or.Table.{select}
use inventory_reservation_or.Table.Sort.{insert_desc, order_by_desc, All-insert_desc}

module _ {A : Type 0} where
  cons-select :
      (test : A → Bool) (x : A) (xs ys : List A)
      → Permᴰ (select test xs) (select test ys)
      → Permᴰ (select test (x ∷ xs)) (select test (x ∷ ys))
  unfolding select
  cons-select test x xs ys d = elim (Bool-cases (test x)) [
    | inl e ↦ rw e (Permᴰ.cons refl d)
    | inr e ↦ rw e d
  ]

  swap-select :
      (test : A → Bool) (x y : A) (rows : List A)
      → Permᴰ (select test (x ∷ y ∷ rows)) (select test (y ∷ x ∷ rows))
  unfolding select
  swap-select test x y rows = elim (Bool-cases (test x)) [
    | inl e ↦ elim (Bool-cases (test y)) [
      | inl f ↦ rw (e, f) (Permᴰ.swap refl refl)
      | inr f ↦ rw (e, f) (Permᴰ.refl _)
    ]
    | inr e ↦ rw e (Permᴰ.refl _)
  ]

  -- A SELECT from the same rows.
  pub select-perm :
      (test : A → Bool) {xs ys : List A} → Permᴰ xs ys → Permᴰ (select test xs) (select test ys)
  unfolding select
  select-perm test Permᴰ.nil = Permᴰ.nil
  select-perm test (Permᴰ.cons {a = a} {l₁ = l₁} {l₂ = l₂} e d) =
      subst (λ b. Permᴰ (select test (a ∷ l₁)) (select test (b ∷ l₂))) e
        (cons-select test a l₁ l₂ (select-perm test d))
  select-perm test (Permᴰ.swap {a = a} {b = b} {a' = a'} {l = l} e f) =
      subst (λ b'. Permᴰ (select test (a ∷ b ∷ l)) (select test (a' ∷ b' ∷ l))) e
        (subst (λ c. Permᴰ (select test (a ∷ b ∷ l)) (select test (c ∷ a ∷ l))) f
          (swap-select test a b l))
  select-perm test (Permᴰ.trans d d') = Permᴰ.trans (select-perm test d) (select-perm test d')

  All-perm : (P : A → Type 0) {xs ys : List A} → Permᴰ xs ys → All P xs → All P ys
  All-perm P Permᴰ.nil h = tt
  All-perm P (Permᴰ.cons e d) h = (subst P e h.0, All-perm P d h.1)
  All-perm P (Permᴰ.swap e f) h = (subst P f h.1.0, (subst P e h.0, h.1.1))
  All-perm P (Permᴰ.trans d d') h = All-perm P d' (All-perm P d h)

module _ {A : Type 0} (column : A → ℕ) where
  -- No two rows are alike in the column.
  abbrev pub AreDistinct : List A → Type 0
  AreDistinct [] = Unit
  AreDistinct (x ∷ xs) = All (λ y. column x ≢ column y) xs × AreDistinct xs

  -- Every row is followed by none with more in the column.
  abbrev pub AreDescending : List A → Type 0
  AreDescending [] = Unit
  AreDescending (x ∷ xs) = All (λ y. column y ≤ column x) xs × AreDescending xs

  AreDistinct-perm : {xs ys : List A} → Permᴰ xs ys → AreDistinct xs → AreDistinct ys
  AreDistinct-perm Permᴰ.nil h = tt
  AreDistinct-perm (Permᴰ.cons {l₂ = l₂} e d) h =
      (subst (λ b. All (λ y. column b ≢ column y) l₂) e (All-perm _ d h.0), AreDistinct-perm d h.1)
  AreDistinct-perm (Permᴰ.swap {a = a} {b = b} {a' = a'} {l = l} e f) h =
      subst (λ b'. AreDistinct (a' ∷ b' ∷ l)) e
        (subst (λ c. AreDistinct (c ∷ a ∷ l)) f
          (((λ same. h.0.0 (sym same)), h.1.0), (h.0.1, h.1.1)))
  AreDistinct-perm (Permᴰ.trans d d') h = AreDistinct-perm d' (AreDistinct-perm d h)

  insert_desc-insert_desc :
      (a b : A) (rows : List A)
      → column a ≢ column b
      → insert_desc column a (insert_desc column b rows)
        ≡ insert_desc column b (insert_desc column a rows)
  unfolding insert_desc
  insert_desc-insert_desc a b [] n = ground (arith, n)
  insert_desc-insert_desc a b (x ∷ rows) n = ground (arith, n, insert_desc-insert_desc a b rows n)

  -- The same rows in another order are sorted to the same list.
  pub order_by_desc-eq :
      {xs ys : List A}
      → Permᴰ xs ys
      → AreDistinct xs
      → order_by_desc column xs ≡ order_by_desc column ys
  unfolding order_by_desc
  order_by_desc-eq Permᴰ.nil h = refl
  order_by_desc-eq (Permᴰ.cons {a = a} {l₂ = l₂} e d) h =
      ap (insert_desc column a) (order_by_desc-eq d h.1)
      ∙ ap (λ b. insert_desc column b (order_by_desc column l₂)) e
  order_by_desc-eq (Permᴰ.swap {a = a} {b = b} {a' = a'} {l = l} e f) h =
      let sorted = order_by_desc column l in
      insert_desc-insert_desc a b sorted h.0.0
      ∙ ap (λ c. insert_desc column c (insert_desc column a sorted)) f
      ∙ ap (λ b'. insert_desc column a' (insert_desc column b' sorted)) e
  order_by_desc-eq (Permᴰ.trans d d') h =
      order_by_desc-eq d h ∙ order_by_desc-eq d' (AreDistinct-perm d h)

  insert_desc-perm : (r : A) (rows : List A) → Permᴰ (insert_desc column r rows) (r ∷ rows)
  unfolding insert_desc
  insert_desc-perm r [] = Permᴰ.refl _
  insert_desc-perm r (x ∷ rows) = elim (Bool-cases (leb (column x) (column r))) [
    | inl e ↦ rw e (Permᴰ.refl _)
    | inr e ↦ rw e (Permᴰ.trans (Permᴰ.cons refl (insert_desc-perm r rows)) (Permᴰ.swap refl refl))
  ]

  pub order_by_desc-perm : (rows : List A) → Permᴰ (order_by_desc column rows) rows
  unfolding order_by_desc
  order_by_desc-perm [] = Permᴰ.nil
  order_by_desc-perm (r ∷ rows) =
      Permᴰ.trans (insert_desc-perm r (order_by_desc column rows))
        (Permᴰ.cons refl (order_by_desc-perm rows))

  All-below :
      (m n : ℕ) (rows : List A)
      → m ≤ n
      → All (λ y. column y ≤ m) rows
      → All (λ y. column y ≤ n) rows
  All-below m n [] le h = tt
  All-below m n (y ∷ rows) le h = (omega arith, All-below m n rows le h.1)

  insert_desc-AreDescending :
      (r : A) (rows : List A) → AreDescending rows → AreDescending (insert_desc column r rows)
  unfolding insert_desc
  insert_desc-AreDescending r [] h = (tt, tt)
  insert_desc-AreDescending r (x ∷ rows) h = elim (Bool-cases (leb (column x) (column r))) [
    | inl e ↦
        let le : column x ≤ column r = ground arith in
        rw e ((le, All-below (column x) (column r) rows le h.0), h)
    | inr e ↦
        let le : column r ≤ column x = ground arith in
        rw e (
          All-insert_desc column (λ y. column y ≤ column x) r rows le h.0,
          insert_desc-AreDescending r rows h.1,
        )
  ]

  pub order_by_desc-AreDescending : (rows : List A) → AreDescending (order_by_desc column rows)
  unfolding order_by_desc
  order_by_desc-AreDescending [] = tt
  order_by_desc-AreDescending (r ∷ rows) =
      insert_desc-AreDescending r (order_by_desc column rows) (order_by_desc-AreDescending rows)
