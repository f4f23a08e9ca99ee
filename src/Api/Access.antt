-- ===== src/Api/Access.antt =====
-- src/services/auth_service.py and src/api/deps.py together: from registration to a request.
use inventory_reservation_or.Prelude.{ℕ, ◌≡◌, refl, true, Option, none, some, leb}
use mathlib.Core.Path.{subst, sym}
use inventory_reservation_or.Models.{User}
use inventory_reservation_or.Session.{Session, ok, now, or_raise, gets, unauthorized, ◌>>=◌}
use inventory_reservation_or.Security.{TokenClaims, Crypto, IsSound, decode_access_token}
use inventory_reservation_or.Repositories.Catalog.{user_by_id}
use inventory_reservation_or.Services.Auth.{
  RegisterRequest, register, login, claims_at, register-login, register-by_id,
}
use inventory_reservation_or.Api.Deps.{get_current_user}

claimed-user :
    (decoded : Option TokenClaims) (claims : TokenClaims) (user : User) (s : Session)
    → decoded ≡ some claims
    → user_by_id claims.sub s ≡ some user
    → ((or_raise decoded (unauthorized "Invalid or expired token") >>= λ c.
          (gets (user_by_id c.sub) >>= λ u. or_raise u (unauthorized "User no longer exists")))
        s).0
      ≡ ok user
claimed-user none claims user s e stored = cc
claimed-user (some c) claims user s e stored =
    let same : c ≡ claims = cc in
    let stored' = subst (λ (x : TokenClaims). user_by_id x.sub s ≡ some user) (sym same) stored in
    rw stored' refl

module _ (crypto : Crypto) where
  token-user :
      (claims : TokenClaims) (user : User) (s : Session)
      → IsSound crypto
      → leb (s.clock s.ticks) claims.exp ≡ true
      → user_by_id claims.sub s ≡ some user
      → (get_current_user crypto (some (crypto.encode claims)) s).0 ≡ ok user
  unfolding get_current_user decode_access_token now user_by_id
  token-user claims user s sound fresh stored =
      let e : crypto.decode (now s).0 (crypto.encode claims) ≡ some claims =
        sound.decodes (s.clock s.ticks) claims fresh in
      claimed-user _ claims user (now s).1 e stored

  -- If the library verifies a password against its own hash and decodes a token that has not
  -- expired to its claims, then a user who was registered is stored, can log in right after with
  -- the same email and password, and the token of that log-in leads to the user on every session
  -- in which the user is still stored and whose clock has not passed the token's expiry.
  pub sign_in :
      (jwt_expire_minutes : ℕ) (payload : RegisterRequest) (s t : Session) (user : User)
      → IsSound crypto
      → (register crypto payload s).0 ≡ ok user
      → let s' = (register crypto payload s).1 in
        let claims = claims_at crypto jwt_expire_minutes user s' in
        leb (t.clock t.ticks) claims.exp ≡ true
        → user_by_id user.id t ≡ some user
        → (user_by_id user.id s' ≡ some user)
          × ((login crypto jwt_expire_minutes
                (record { email = payload.email; password = payload.password })
                s').0
              ≡ ok (record { access_token = crypto.encode claims; role = user.role }))
          × ((get_current_user crypto (some (crypto.encode claims)) t).0 ≡ ok user)
  sign_in jwt_expire_minutes payload s t user sound e fresh stored =
      let claims = claims_at crypto jwt_expire_minutes user (register crypto payload s).1 in
      (
        register-by_id crypto payload s user e,
        register-login crypto jwt_expire_minutes payload s user sound e,
        token-user claims user t sound fresh stored,
      )
