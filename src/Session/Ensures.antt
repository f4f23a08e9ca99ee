-- ===== src/Session/Ensures.antt =====
-- What an action ensures: one predicate if it returns, another if it raises.
use inventory_reservation_or.Prelude.{◌≡◌, refl, Bool, true, false, Option, none, some}
use inventory_reservation_or.Session.{
  Session, Action, Result, ok, err, raise_if, or_raise, ◌>>=◌, Error,
}

abbrev pub Ensures :
    {A : Type 0} → (A → Session → Type 0) → (Session → Type 0) → Result A × Session → Type 0
Ensures Q E (ok a, s) = Q a s
Ensures Q E (err e, s) = E s

module _ {A B : Type 0} (Q : A → Session → Type 0) (R : B → Session → Type 0)
    (E : Session → Type 0) where
  bind_out :
      (f : A → Action B) (out : Result A × Session)
      → Ensures Q E out
      → ((a : A) (s : Session) → Q a s → Ensures R E (f a s))
      → Ensures R E (elim out.0 [ ok a ↦ f a out.1 | err e ↦ (err e, out.1) ])
  bind_out f (ok a, s) h k = k a s h
  bind_out f (err e, s) h k = h

  -- What a chain ensures: the first action what the second takes up, and the errors of both.
  pub bind-Ensures :
      (m : Action A) (f : A → Action B) (s : Session)
      → Ensures Q E (m s)
      → ((a : A) (s' : Session) → Q a s' → Ensures R E (f a s'))
      → Ensures R E ((m >>= f) s)
  bind-Ensures m f s h k = bind_out f (m s) h k

-- A weaker promise.
pub Ensures-weaken :
    {A : Type 0} (Q R : A → Session → Type 0) (E F : Session → Type 0) (out : Result A × Session)
    → ((a : A) (s : Session) → Q a s → R a s)
    → ((s : Session) → E s → F s)
    → Ensures Q E out
    → Ensures R F out
Ensures-weaken Q R E F (ok a, s) f g h = f a s h
Ensures-weaken Q R E F (err e, s) f g h = g s h

-- Actions that only test keep every predicate.
pub raise_if-Ensures :
    (P : Session → Type 0) (b : Bool) (e : Error) (s : Session)
    → P s
    → Ensures (λ _. P) P (raise_if b e s)
raise_if-Ensures P true e s h = h
raise_if-Ensures P false e s h = h

pub or_raise-Ensures :
    {A : Type 0} (P : Session → Type 0) (o : Option A) (e : Error) (s : Session)
    → P s
    → Ensures (λ a s'. (o ≡ some a) × P s') P (or_raise o e s)
or_raise-Ensures P none e s h = h
or_raise-Ensures P (some a) e s h = (refl, h)

-- Two promises of the same result.
pub Ensures-both :
    {A : Type 0} (Q R : A → Session → Type 0) (E F : Session → Type 0) (out : Result A × Session)
    → Ensures Q E out
    → Ensures R F out
    → Ensures (λ a s. Q a s × R a s) E out
Ensures-both Q R E F (ok a, s) h k = (h, k)
Ensures-both Q R E F (err e, s) h k = h
