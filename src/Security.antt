-- ===== src/Security.antt =====
-- src/core/security.py. What bcrypt (passlib) and the JWT library compute is a parameter, with
-- the secret and the algorithm of the settings in it.
use inventory_reservation_or.Prelude.{ℕ, ◌+◌, ◌≡◌, String, Bool, true, Option, some, leb}
use inventory_reservation_or.Models.{Uid, Time, UserRole}
use inventory_reservation_or.Session.{St, now}

-- The claims of a token.
pub record TokenClaims : Type 0 where
  pub sub : Uid
  pub email : String
  pub role : UserRole
  pub iat : Time
  pub exp : Time

-- `none` is `JWTError`; a token is decoded at a time, since it expires.
pub record Crypto : Type 0 where
  pub hash : String → String
  pub verify : String → String → Bool
  pub encode : TokenClaims → String
  pub decode : Time → String → Option TokenClaims

-- What the documentation of the two libraries says: a password is verified against its own hash,
-- and a token that has not expired is decoded to its claims.
pub record IsSound (c : Crypto) : Type 0 where
  pub verifies : (password : String) → c.verify password (c.hash password) ≡ true
  pub decodes :
      (t : Time) (claims : TokenClaims)
      → leb t claims.exp ≡ true
      → c.decode t (c.encode claims) ≡ some claims

module _ (crypto : Crypto) where
  unfoldable pub hash_password : String → String
  hash_password plain_password = crypto.hash plain_password

  unfoldable pub verify_password : String → String → Bool
  verify_password plain_password hashed_password = crypto.verify plain_password hashed_password

  -- `jwt_expire_minutes` of the settings, in the unit of the clock
  unfoldable pub create_access_token : ℕ → Uid → String → UserRole → St String
  unfolding now
  create_access_token jwt_expire_minutes subject email role s =
      let (t, s') = now s in
      (
        crypto.encode (record {
          sub = subject;
          email = email;
          role = role;
          iat = t;
          exp = t + jwt_expire_minutes;
        }),
        s',
      )

  unfoldable pub decode_access_token : String → St (Option TokenClaims)
  unfolding now
  decode_access_token token s = let (t, s') = now s in (crypto.decode t token, s')
