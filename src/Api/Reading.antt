-- ===== src/Api/Reading.antt =====
-- Actions that only read, and actions that are one transaction: the two kinds that the endpoints
-- of src/api are made of.
use inventory_reservation_or.Prelude.{
  String, ◌≡◌, ◌∙◌, Bool, true, false, not, Option, none, some, List,
}
use inventory_reservation_or.Models.{UserRole}
use inventory_reservation_or.Session.{
  Session, Tables, Action, Error, pure, gets, or_raise, raise_if, lift, now, ◌>>=◌, unauthorized,
  forbidden,
}
use inventory_reservation_or.Session.Ensures.{Ensures, bind-Ensures, Ensures-weaken}
use inventory_reservation_or.Security.{TokenClaims, Crypto, decode_access_token}
use inventory_reservation_or.Stock.Books.Valid.{IsValid}
use inventory_reservation_or.Repositories.Catalog.{user_by_id}
use inventory_reservation_or.Api.Deps.{is_allowed, get_current_user, require_roles}

-- Nothing is uncommitted, the books agree, and `c` is what is committed.
abbrev pub Ready : Tables → Session → Type 0
Ready c s = IsValid s × (s.committed ≡ c)

abbrev pub StillCommitted : Tables → Session → Type 0
StillCommitted c s = s.committed ≡ c

-- From a session that is ready, the action leaves one that is ready, with the same committed.
pub record IsReading {A : Type 0} (m : Action A) : Type 0 where
  pub runs :
      (c : Tables) (s : Session) → Ready c s → Ensures (λ _. Ready c) (StillCommitted c) (m s)

-- The action answers with the books in agreement and nothing uncommitted, or commits nothing.
pub record IsTransaction {A : Type 0} (m : Action A) : Type 0 where
  pub runs :
      (c : Tables) (s : Session) → Ready c s → Ensures (λ _. IsValid) (StillCommitted c) (m s)

module _ {A : Type 0} where
  pub pure-IsReading : (a : A) → IsReading (pure a)
  pure-IsReading a = record { runs = λ c s r. r }

  pub gets-IsReading : (f : Session → A) → IsReading (gets f)
  gets-IsReading f = record { runs = λ c s r. r }

  pub or_raise-IsReading : (o : Option A) (e : Error) → IsReading (or_raise o e)
  or_raise-IsReading none e = record { runs = λ c s r. r.1 }
  or_raise-IsReading (some a) e = record { runs = λ c s r. r }

pub raise_if-IsReading : (b : Bool) (e : Error) → IsReading (raise_if b e)
raise_if-IsReading true e = record { runs = λ c s r. r.1 }
raise_if-IsReading false e = record { runs = λ c s r. r }

module _ {A B : Type 0} (m : Action A) (f : A → Action B) where
  pub bind-IsReading : IsReading m → ((a : A) → IsReading (f a)) → IsReading (m >>= f)
  bind-IsReading h k = record {
    runs = λ c s r.
        bind-Ensures (λ _. Ready c) (λ _. Ready c) (StillCommitted c) m f s (h.runs c s r)
          (λ a s'. (k a).runs c s');
  }

  -- Reading comes first, and the transaction then.
  pub bind-IsTransaction : IsReading m → ((a : A) → IsTransaction (f a)) → IsTransaction (m >>= f)
  bind-IsTransaction h k = record {
    runs = λ c s r.
        bind-Ensures (λ _. Ready c) (λ _. IsValid) (StillCommitted c) m f s (h.runs c s r)
          (λ a s'. (k a).runs c s');
  }

pub IsReading-IsTransaction : {A : Type 0} (m : Action A) → IsReading m → IsTransaction m
IsReading-IsTransaction m h = record {
  runs = λ c s r.
      Ensures-weaken (λ _. Ready c) (λ _. IsValid) (StillCommitted c) (StillCommitted c) (m s)
        (λ a s' k. k.0) (λ s' k. k) (h.runs c s r);
}

-- What is computed from the answer of a transaction, and the session that it leaves.
pub answer-IsTransaction :
    {A B : Type 0} (m : Action A) (f : A → Session → B)
    → IsTransaction m
    → IsTransaction (m >>= λ a. gets (f a))
answer-IsTransaction m f h = record {
  runs = λ c s r.
      bind-Ensures (λ _. IsValid) (λ _. IsValid) (StillCommitted c) m (λ a. gets (f a)) s
        (h.runs c s r) (λ a s' v. v);
}

-- An action that was shown to be a transaction where it starts.
pub started-IsTransaction :
    {A : Type 0} (m : Action A)
    → ((s : Session) → IsValid s → Ensures (λ _. IsValid) (StillCommitted s.committed) (m s))
    → IsTransaction m
started-IsTransaction m h = record {
  runs = λ c s r.
      Ensures-weaken (λ _. IsValid) (λ _. IsValid) (StillCommitted s.committed) (StillCommitted c)
        (m s) (λ a s' k. k) (λ s' k. k ∙ r.1) (h s r.0);
}

module _ (crypto : Crypto) where
  decode-IsReading : (token : String) → IsReading (lift (decode_access_token crypto token))
  unfolding decode_access_token now
  decode-IsReading token = record {
    runs = λ c s r. (record { idle = r.0.idle; consistent = r.0.consistent }, r.1);
  }

  pub get_current_user-IsReading :
      (credentials : Option String) → IsReading (get_current_user crypto credentials)
  unfolding get_current_user
  get_current_user-IsReading credentials =
      bind-IsReading _ _ (or_raise-IsReading credentials (unauthorized "Missing bearer token"))
        (λ token. bind-IsReading _ _ (decode-IsReading token) (λ decoded.
          bind-IsReading {A = TokenClaims} _ _
            (or_raise-IsReading decoded (unauthorized "Invalid or expired token"))
            (λ claims.
              bind-IsReading _ _ (gets-IsReading (user_by_id claims.sub))
                (λ user. or_raise-IsReading user (unauthorized "User no longer exists")))))

  pub require_roles-IsReading :
      (allowed_roles : List UserRole) (credentials : Option String)
      → IsReading (require_roles crypto allowed_roles credentials)
  unfolding require_roles
  require_roles-IsReading allowed_roles credentials =
      bind-IsReading _ _ (get_current_user-IsReading credentials) (λ user.
        bind-IsReading _ (λ _. pure user)
          (raise_if-IsReading (not (is_allowed user.role allowed_roles)) forbidden)
          (λ _. pure-IsReading user))
