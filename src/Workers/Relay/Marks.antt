-- ===== src/Workers/Relay/Marks.antt =====
-- The outbox of src/workers/outbox_relay.py as a round leaves it, but for the times of publication.
use inventory_reservation_or.Prelude.{
  ◌≡◌, refl, sym, ap, ◌∙◌, true, false, none, List, [], ◌∷◌, map, arith, ◌==◌, if◌then◌else◌,
  Bool-cases, inl, inr,
}
use inventory_reservation_or.Models.{Uid, OutboxEvent, OutboxStatus}
use inventory_reservation_or.Session.{Session, now}
use inventory_reservation_or.Table.{update_where}
use inventory_reservation_or.Repositories.Reservation.{is_among}
use inventory_reservation_or.Repositories.Logs.{mark_published}

abbrev pub untimed : OutboxEvent → OutboxEvent
untimed e = record e { published_at = none }

-- An event, published if it is one of these.
abbrev pub mark : List Uid → OutboxEvent → OutboxEvent
mark ids e =
    if is_among ids e.id then record (untimed e) { status = OutboxStatus.published } else untimed e

-- The events of the second list are those of the first, with exactly these published besides.
abbrev pub AreMarked : List Uid → List OutboxEvent → List OutboxEvent → Type 0
AreMarked ids before after = map untimed after ≡ map (mark ids) before

pub AreMarked-nothing : (rows : List OutboxEvent) → AreMarked [] rows rows
AreMarked-nothing rows = refl

mark_where-AreMarked :
    (id : Uid) (stamp : OutboxEvent → OutboxEvent)
    → ((e : OutboxEvent)
        → untimed (stamp e) ≡ record (untimed e) { status = OutboxStatus.published })
    → (rows : List OutboxEvent)
    → AreMarked (id ∷ []) rows (update_where (λ e. e.id == id) stamp rows)
unfolding update_where
mark_where-AreMarked id stamp same [] = refl
mark_where-AreMarked id stamp same (e ∷ rows) =
    let rest = mark_where-AreMarked id stamp same rows in
    elim (Bool-cases (e.id == id)) [
      | inl hit ↦
          let turned : (id == e.id) ≡ true = ground arith in rw (hit, turned, same e, rest) refl
      | inr miss ↦ let turned : (id == e.id) ≡ false = ground arith in rw (miss, turned, rest) refl
    ]

pub mark_published-AreMarked :
    (id : Uid) (s : Session)
    → AreMarked (id ∷ []) s.tables.outbox (mark_published id s).1.tables.outbox
unfolding mark_published now
mark_published-AreMarked id s = mark_where-AreMarked id _ (λ e. refl) s.tables.outbox

mark_again :
    (id : Uid) (ids : List Uid) (e : OutboxEvent) → mark ids (mark (id ∷ []) e) ≡ mark (id ∷ ids) e
mark_again id ids e = elim (Bool-cases (id == e.id)) [
  | inl hit ↦ elim (Bool-cases (is_among ids e.id)) [
    | inl again ↦ rw (hit, again) refl
    | inr once ↦ rw (hit, once) refl
  ]
  | inr miss ↦ rw miss refl
]

marks_again :
    (id : Uid) (ids : List Uid) (rows : List OutboxEvent)
    → map (mark ids) (map (mark (id ∷ [])) rows) ≡ map (mark (id ∷ ids)) rows
marks_again id ids [] = refl
marks_again id ids (e ∷ rows) = rw (mark_again id ids e, marks_again id ids rows) refl

untimed_first :
    (ids : List Uid) (rows : List OutboxEvent)
    → map (mark ids) (map untimed rows) ≡ map (mark ids) rows
untimed_first ids [] = refl
untimed_first ids (e ∷ rows) = ap (λ es. mark ids e ∷ es) (untimed_first ids rows)

-- One event more, and then these.
pub AreMarked-then :
    (id : Uid) (ids : List Uid) (before between after : List OutboxEvent)
    → AreMarked (id ∷ []) before between
    → AreMarked ids between after
    → AreMarked (id ∷ ids) before after
AreMarked-then id ids before between after h k =
    k ∙ sym (untimed_first ids between) ∙ ap (map (mark ids)) h ∙ marks_again id ids before
