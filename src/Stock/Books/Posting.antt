-- ===== src/Stock/Books/Posting.antt =====
-- What one more audit entry does to the ledger of a pair.
use inventory_reservation_or.Prelude.{ℕ, ◌+◌, ◌≡◌, Bool, arith, if◌then◌else◌}
use inventory_reservation_or.Prelude.Int.{ℤ, pos, neg, ◌+ℤ◌}

-- An entry that takes the moved quantity away, and one that adds it.
pub post_down :
    (b : Bool) (q a a' : ℕ) (l : ℤ)
    → l ≡ pos a
    → a' + (if b then q else 0) ≡ a + 0
    → (if b then neg q else pos 0) +ℤ l ≡ pos a'
unfolding ◌+ℤ◌
post_down b q a a' l e h = ground arith

pub post_up :
    (b : Bool) (q a a' : ℕ) (l : ℤ)
    → l ≡ pos a
    → a' + 0 ≡ a + (if b then q else 0)
    → (if b then pos q else pos 0) +ℤ l ≡ pos a'
unfolding ◌+ℤ◌
post_up b q a a' l e h = ground arith

-- An entry that is not about what is available.
pub post_none : (a a' : ℕ) (l : ℤ) → l ≡ pos a → a' + 0 ≡ a + 0 → pos 0 +ℤ l ≡ pos a'
unfolding ◌+ℤ◌
post_none a a' l e h = ground arith
