-- ===== src/Table/Laws.antt =====
-- What a SELECT sees after an UPDATE, and what the rowcount of an UPDATE says.
use mathlib.Core.Option
use inventory_reservation_or.Prelude.{
  ℕ, ◌+◌, ◌≡◌, refl, Bool, true, false, ◌&&◌, Option, none, some, List, [], ◌∷◌, arith,
  if◌then◌else◌, Bool-cases, inl, inr,
}
use mathlib.Core.Path.{subst}
use inventory_reservation_or.Prelude.Lists.{All}
use inventory_reservation_or.Table.{find, update_where, rowcount}

module _ {A : Type 0} where
  -- Where the UPDATE leaves the test of the SELECT alone, the SELECT sees the updated row.
  pub find-update_where :
      (key test : A → Bool) (f : A → A)
      → ((r : A) → key (f r) ≡ key r)
      → (rows : List A)
      → find key (update_where test f rows)
        ≡ Option.map (λ r. if test r then f r else r) (find key rows)
  unfolding find update_where
  find-update_where key test f keeps [] = refl
  find-update_where key test f keeps (r ∷ rows) =
      ground (arith, keeps r, find-update_where key test f keeps rows)

  -- What a SELECT finds passes its test.
  pub find_sound : (key : A → Bool) (rows : List A) {r : A} → find key rows ≡ some r → key r ≡ true
  unfolding find
  find_sound key [] h = cc
  find_sound key (x ∷ rows) {r} h = ground (arith, find_sound key rows {r = r})

  pub rowcount-none :
      (key guard : A → Bool) (rows : List A)
      → find key rows ≡ none
      → rowcount (λ r. key r && guard r) rows ≡ 0
  unfolding find rowcount
  rowcount-none key guard [] h = refl
  rowcount-none key guard (x ∷ rows) h = ground (arith, rowcount-none key guard rows)

  -- A SELECT that finds nothing: no row passes its test.
  pub find-none :
      (test : A → Bool) (rows : List A) → find test rows ≡ none → All (λ r. test r ≡ false) rows
  unfolding find
  find-none test [] h = tt
  find-none test (r ∷ rows) h = ground (arith, find-none test rows)

  pub All-find :
      (P : A → Type 0) (test : A → Bool) (rows : List A) {r : A}
      → All P rows
      → find test rows ≡ some r
      → P r
  unfolding find
  All-find P test [] h e = cc
  All-find P test (x ∷ rows) {r} h e = elim (Bool-cases (test x)) [
    | inl hit ↦
        let found : some x ≡ some r = rw hit at e in let same : x ≡ r = cc in subst P same h.0
    | inr miss ↦ All-find P test rows h.1 (rw miss at e)
  ]

  pub All-update_where :
      (P : A → Type 0) (test : A → Bool) (f : A → A)
      → ((r : A) → P r → P (f r))
      → (rows : List A) → All P rows
      → All P (update_where test f rows)
  unfolding update_where
  All-update_where P test f keeps [] h = tt
  All-update_where P test f keeps (r ∷ rows) h =
      (ground (arith, h.0, keeps r h.0), All-update_where P test f keeps rows h.1)

  pub All-map :
      (P Q : A → Type 0) → ((r : A) → P r → Q r) → (rows : List A) → All P rows → All Q rows
  All-map P Q f [] h = tt
  All-map P Q f (r ∷ rows) h = (f r h.0, All-map P Q f rows h.1)

  pub All-zip :
      (P Q : A → Type 0) (rows : List A) → All P rows → All Q rows → All (λ r. P r × Q r) rows
  All-zip P Q [] h k = tt
  All-zip P Q (r ∷ rows) h k = ((h.0, k.0), All-zip P Q rows h.1 k.1)

  pub ruleset table_laws = (arith, find-update_where, find_sound, rowcount-none)
