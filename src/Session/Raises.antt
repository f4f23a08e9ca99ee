-- ===== src/Session/Raises.antt =====
-- How an exception goes through a chain of actions, and how the chain goes on without one.
use inventory_reservation_or.Prelude.{◌≡◌, ap}
use inventory_reservation_or.Session.{Session, Result, ok, err, Error, Action, ◌>>=◌}

module _ {A B : Type 0} where
  -- What raises first is raised.
  elim-raises :
      (f : A → Action B) (out : Result A × Session) (e : Error)
      → out.0 ≡ err e
      → let next : Result B × Session = elim out.0 [ ok a ↦ f a out.1 | err x ↦ (err x, out.1) ] in
        next.0 ≡ err e
  elim-raises f (ok a, s) e h = cc
  elim-raises f (err x, s) e h = let same : x ≡ e = cc in ap err same

  pub bind-raises :
      (m : Action A) (f : A → Action B) (s : Session) (e : Error)
      → (m s).0 ≡ err e
      → ((m >>= f) s).0 ≡ err e
  bind-raises m f s e h = elim-raises f (m s) e h

  elim-continues :
      (f : A → Action B) (out : Result A × Session) (a : A)
      → out.0 ≡ ok a
      → (elim out.0 [ ok a ↦ f a out.1 | err x ↦ (err x, out.1) ]) ≡ f a out.1
  elim-continues f (ok x, s) a h = let same : x ≡ a = cc in ap (λ (y : A). f y s) same
  elim-continues f (err x, s) a h = cc

  pub bind-continues :
      (m : Action A) (f : A → Action B) (s : Session) (a : A)
      → (m s).0 ≡ ok a
      → (m >>= f) s ≡ f a (m s).1
  bind-continues m f s a h = elim-continues f (m s) a h

-- The action raises the error on the session.
pub record Raises {A : Type 0} (m : Action A) (s : Session) (e : Error) : Type 0 where
  pub raised : (m s).0 ≡ err e

pub bind-Raises :
    {A B : Type 0} (m : Action A) (f : A → Action B) (s : Session) (e : Error)
    → Raises m s e
    → Raises (m >>= f) s e
bind-Raises m f s e h = record { raised = bind-raises m f s e h.raised }
