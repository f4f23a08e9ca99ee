-- ===== src/Services/Auth.antt =====
-- src/services/auth_service.py. Hashing and tokens (src/core/security.py) are bcrypt's and the
-- JWT library's, and are parameters here.
use inventory_reservation_or.Prelude.{
  ℕ, ◌+◌, ==_refl, String, ◌≡◌, refl, not, Option, none, some, Option-cases, inl, inr,
}
use mathlib.Core.Path.{subst}
use text.Mathlib.TextPositions.{eq_refl}
use inventory_reservation_or.Security.{
  TokenClaims, Crypto, IsSound, hash_password, verify_password, create_access_token,
}
use inventory_reservation_or.Models.{Uid, UserRole, User}
use inventory_reservation_or.Session.{
  Session, ok, Action, pure, raise, gets, lift, raise_if, ◌>>=◌, ◌>>◌, commit, generate_id, now,
  invalid_request, unauthorized,
}
use inventory_reservation_or.Table.{find}
use inventory_reservation_or.Repositories.Catalog.{
  user_by_id, user_by_email, insert_user, add_user_unless,
}

-- `RegisterRequest`, `LoginRequest` and `TokenResponse` of src/schemas/auth.py
pub record RegisterRequest : Type 0 where
  pub email : String
  pub password : String
  pub role : UserRole

pub record LoginRequest : Type 0 where
  pub email : String
  pub password : String

pub record TokenResponse : Type 0 where
  pub access_token : String
  pub role : UserRole

abbrev pub raise_if_registered : Option User → Action (Unit {0})
raise_if_registered none = pure tt
raise_if_registered (some _) = raise (invalid_request "A user with this email already exists")

module _ (crypto : Crypto) where
  abbrev pub new_user : Uid → RegisterRequest → User
  new_user id payload = record {
    id = id;
    email = payload.email;
    hashed_password = hash_password crypto payload.password;
    role = payload.role;
  }

  unfoldable pub register : RegisterRequest → Action User
  unfolding user_by_email generate_id insert_user commit
  register payload = do
    raise_if_registered (← gets (user_by_email payload.email))
    id ← lift generate_id
    user ← insert_user (new_user id payload)
    lift commit
    pure user

  -- src/bootstrap.py, with the default admin's address and password from the settings
  abbrev pub insert_admin : String → String → Option User → Action (Unit {0})
  insert_admin email password (some _) = pure tt
  insert_admin email password none = do
    id ← lift generate_id
    insert_user (new_user id (record { email = email; password = password; role = UserRole.admin }))
    lift commit

  unfoldable pub ensure_default_admin : String → String → Action (Unit {0})
  unfolding user_by_email insert_user generate_id commit
  ensure_default_admin email password s = insert_admin email password (user_by_email email s) s

  module _ (jwt_expire_minutes : ℕ) where
    -- The user that is found, if the password is theirs.
    unfoldable pub grant : LoginRequest → Option User → Action TokenResponse
    unfolding verify_password create_access_token
    grant payload none = raise (unauthorized "Invalid email or password")
    grant payload (some user) = do
      raise_if (not (verify_password crypto payload.password user.hashed_password))
          (unauthorized "Invalid email or password")
      token ← lift (create_access_token crypto jwt_expire_minutes user.id user.email user.role)
      pure (record { access_token = token; role = user.role })

    unfoldable pub login : LoginRequest → Action TokenResponse
    unfolding user_by_email grant
    login payload s = grant payload (user_by_email payload.email s) s

  -- The token that a user gets who logs in on a session.
  abbrev pub claims_at : ℕ → User → Session → TokenClaims
  claims_at jwt_expire_minutes user s =
      let t = s.clock s.ticks in
      record {
        sub = user.id;
        email = user.email;
        role = user.role;
        iat = t;
        exp = t + jwt_expire_minutes;
      }

  inserted-login :
      (jwt_expire_minutes : ℕ) (payload : RegisterRequest) (id : Uid) (found : Option User)
      (s : Session) (user : User)
      → IsSound crypto
      → let out =
          (add_user_unless (new_user id payload) found >>= λ u. (lift commit >> pure u)) s in
        out.0 ≡ ok user
        → (login jwt_expire_minutes
            (record { email = payload.email; password = payload.password })
            out.1).0
          ≡ ok (record {
            access_token = crypto.encode (claims_at jwt_expire_minutes user out.1);
            role = user.role;
          })
  unfolding login grant user_by_email find commit verify_password hash_password create_access_token
      now
  inserted-login jwt_expire_minutes payload id (some taken) s user sound e = cc
  inserted-login jwt_expire_minutes payload id none s user sound e =
      let same : new_user id payload ≡ user = cc in
      subst
        (λ (u : User).
          (login jwt_expire_minutes (record { email = payload.email; password = payload.password })
            (commit (add_user_unless (new_user id payload) none s).1).1).0
          ≡ ok (record {
            access_token = crypto.encode (
                claims_at jwt_expire_minutes u
                  (commit (add_user_unless (new_user id payload) none s).1).1);
            role = u.role;
          }))
        same (rw (eq_refl payload.email, sound.verifies payload.password) refl)

  -- If the libraries are sound, then a user who was registered can
  -- log in with the same email and password right after, and is answered with the user's role and
  -- a token for the user's id, email and role that is issued at the time of the log-in and expires
  -- after the configured minutes.
  pub register-login :
      (jwt_expire_minutes : ℕ) (payload : RegisterRequest) (s : Session) (user : User)
      → IsSound crypto
      → (register payload s).0 ≡ ok user
      → let s' = (register payload s).1 in
        (login jwt_expire_minutes
          (record { email = payload.email; password = payload.password })
          s').0
        ≡ ok (record {
          access_token = crypto.encode (claims_at jwt_expire_minutes user s');
          role = user.role;
        })
  unfolding register insert_user generate_id
  register-login jwt_expire_minutes payload s user sound e =
      elim (Option-cases (user_by_email payload.email s)) [
        | inl free ↦
            let e' = rw free at e in
            rw free (
              inserted-login jwt_expire_minutes payload (s.uuids s.drawn) _ (generate_id s).1 user
                sound e')
        | inr (taken, found) ↦ let e' = rw found at e in cc
      ]

  inserted-by_id :
      (id : Uid) (payload : RegisterRequest) (found : Option User) (s : Session) (user : User)
      → let out =
          (add_user_unless (new_user id payload) found >>= λ u. (lift commit >> pure u)) s in
        out.0 ≡ ok user → user_by_id user.id out.1 ≡ some user
  unfolding user_by_id find commit
  inserted-by_id id payload (some taken) s user e = cc
  inserted-by_id id payload none s user e =
      let same : new_user id payload ≡ user = cc in
      subst
        (λ (u : User).
          user_by_id u.id (commit (add_user_unless (new_user id payload) none s).1).1 ≡ some u)
        same (rw (==_refl id) refl)

  -- A user who was registered is stored.
  pub register-by_id :
      (payload : RegisterRequest) (s : Session) (user : User)
      → (register payload s).0 ≡ ok user
      → user_by_id user.id (register payload s).1 ≡ some user
  unfolding register insert_user generate_id
  register-by_id payload s user e = elim (Option-cases (user_by_email payload.email s)) [
    | inl free ↦
        let e' = rw free at e in
        rw free (inserted-by_id (s.uuids s.drawn) payload _ (generate_id s).1 user e')
    | inr (taken, found) ↦ let e' = rw found at e in cc
  ]
