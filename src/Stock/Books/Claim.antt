-- ===== src/Stock/Books/Claim.antt =====
-- `claim_expired_batch` of src/repositories/reservation_repository.py: what the flipped rows held is
-- pending until the stock is given back.
use mathlib.Core.Path.{subst}
use inventory_reservation_or.Prelude.{
  ℕ, zero, suc, ◌+◌, ◌≡◌, refl, sym, true, false, List, [], ◌∷◌, map, arith, ◌==◌, Bool-cases, inl,
  inr,
}
use inventory_reservation_or.Prelude.Lists.{All, take}
use inventory_reservation_or.Models.{Uid, Time, InventoryReservation, ReservationStatus, is_active}
use inventory_reservation_or.Table.{select, update_where}
use inventory_reservation_or.Table.Laws.{find-none, All-map, All-zip}
use inventory_reservation_or.Table.Sort.{All-select}
use inventory_reservation_or.Repositories.Reservation.{is_among, ids_of, release_at, has_expired}
use inventory_reservation_or.Stock.{held, HasUniqueIds}

-- Rows with one id are one row.
abbrev SameById : InventoryReservation → InventoryReservation → Type 0
SameById r x = x.id ≡ r.id → x ≡ r

All-same :
    (rows : List InventoryReservation) → HasUniqueIds rows → All (λ r. All (SameById r) rows) rows
All-same [] u = tt
All-same (y ∷ rows) u =
    let others = find-none (λ x. x.id == y.id) rows u.0 in
    (
      ((λ same. refl), All-map _ (SameById y) (λ x ne same. absurd (ground arith)) rows others),
      All-map _ _ (λ x both. ((λ same. absurd (let ne = both.0 in ground arith)), both.1)) rows
          (All-zip _ _ rows others (All-same rows u.1)),
    )

pub All-take :
    (P : InventoryReservation → Type 0) (n : ℕ) (rows : List InventoryReservation)
    → All P rows
    → All P (take n rows)
All-take P zero rows h = tt
All-take P (suc n) [] h = tt
All-take P (suc n) (r ∷ rows) h = (h.0, All-take P n rows h.1)

-- A selected row is active, and the table's only one with its id.
abbrev IsChosen : List InventoryReservation → InventoryReservation → Type 0
IsChosen rows r = All (SameById r) rows × (is_active r.status ≡ true)

All-nothing :
    (rows : List InventoryReservation) → All (λ x. false ≡ true → is_active x.status ≡ true) rows
All-nothing [] = tt
All-nothing (x ∷ rows) = ((λ no. cc), All-nothing rows)

pub among_active :
    (rows chosen : List InventoryReservation)
    → All (IsChosen rows) chosen
    → All (λ x. is_among (ids_of chosen) x.id ≡ true → is_active x.status ≡ true) rows
among_active rows [] h = All-nothing rows
among_active rows (r ∷ chosen) h =
    All-map _ _
      (λ x both m. elim (Bool-cases (r.id == x.id)) [
        | inl hit ↦
            let e : x ≡ r = both.0 (ground arith) in
            subst (λ (y : InventoryReservation). is_active y.status ≡ true) (sym e) h.0.1
        | inr miss ↦ both.1 (rw miss at m)
      ])
      rows (All-zip _ _ rows h.0.0 (among_active rows chosen h.1))

pub IsChosen-expired :
    (t : Time) (limit : ℕ) (rows : List InventoryReservation)
    → HasUniqueIds rows
    → All (IsChosen rows) (take limit (select (has_expired t) rows))
IsChosen-expired t limit rows u = All-take _ limit _ (
    All-map _ (IsChosen rows) (λ r both. (both.0, (let hit = both.1 in ground arith)))
      (select (has_expired t) rows) (All-select _ (has_expired t) rows (All-same rows u)))

-- A reservation as it was when it was active.
abbrev pub as_active : InventoryReservation → InventoryReservation
as_active r = record r { status = ReservationStatus.active }

-- What the flipped rows held is held by their copies as active.
held-release_at :
    (p w : Uid) (ids : List Uid) (t : Time) (rows : List InventoryReservation)
    → All (λ x. is_among ids x.id ≡ true → is_active x.status ≡ true) rows
    → let updated = update_where (λ r. is_among ids r.id) (release_at t) rows in
      held p w updated + held p w (map as_active (select (λ r. is_among ids r.id) updated))
      ≡ held p w rows
unfolding update_where select
held-release_at p w ids t [] h = refl
held-release_at p w ids t (x ∷ rows) h =
    let ih = held-release_at p w ids t rows h.1 in
    let active = h.0 in
    elim (Bool-cases (is_among ids x.id)) [
      | inl hit ↦ rw (hit, hit) (let on = active hit in ground (arith, ih))
      | inr miss ↦ rw (miss, miss) (omega (arith, ih))
    ]

pub held-claimed :
    (p w : Uid) (t : Time) (limit : ℕ) (rows : List InventoryReservation)
    → HasUniqueIds rows
    → let ids = ids_of (take limit (select (has_expired t) rows)) in
      let updated = update_where (λ r. is_among ids r.id) (release_at t) rows in
      held p w updated + held p w (map as_active (select (λ r. is_among ids r.id) updated))
      ≡ held p w rows
held-claimed p w t limit rows u =
    held-release_at p w _ t rows (
      among_active rows (take limit (select (has_expired t) rows))
        (IsChosen-expired t limit rows u))
