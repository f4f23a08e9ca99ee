-- ===== src/Stock/Books/Valid.antt =====
-- Between transactions: nothing is uncommitted, and the books agree.
use inventory_reservation_or.Prelude.{◌≡◌, refl, []}
use inventory_reservation_or.Session.{Session, commit, rollback}
use inventory_reservation_or.Stock.{IsConsistent}

pub record IsValid (s : Session) : Type 0 where
  pub idle : s.tables ≡ s.committed
  pub consistent : IsConsistent [] s.tables

-- A commit of agreeing books, and a rollback to what was committed when they agreed.
pub commit-IsValid : (s : Session) → IsConsistent [] s.tables → IsValid (commit s).1
unfolding commit
commit-IsValid s h = record { idle = refl; consistent = h }

pub rollback-IsValid :
    (s s' : Session) → IsValid s → s'.committed ≡ s.committed → IsValid (rollback s')
unfolding rollback
rollback-IsValid s s' v e = record { idle = refl; consistent = rw e (rw (← v.idle) v.consistent) }
