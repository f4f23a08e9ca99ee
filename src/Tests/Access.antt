-- ===== src/Tests/Access.antt =====
-- Registration and log-in, with a cipher that hides nothing: a token spells its claims.
use text.Mathlib.Text.{◌==◌ as str_eq}
use text.Mathlib.TextPositions.{eq_refl}
use Prim.Native.Char.{code}
use inventory_reservation_or.Prelude.{
  String, ℕ, zero, suc, ◌==◌, ◌≡◌, refl, true, some, none, leb, Option, if◌then◌else◌,
}
use inventory_reservation_or.Models.{User, UserRole, Time}
use inventory_reservation_or.Session.{ok, commit, generate_id}
use inventory_reservation_or.Table.{find}
use inventory_reservation_or.Security.{TokenClaims, Crypto, IsSound, hash_password}
use inventory_reservation_or.Repositories.Catalog.{user_by_email, insert_user, user_by_id}
use inventory_reservation_or.Services.Auth.{RegisterRequest, register, login, claims_at}
use inventory_reservation_or.Api.Deps.{get_current_user}
use inventory_reservation_or.Api.Access.{sign_in}
use inventory_reservation_or.Tests.Shop.{shop}

-- A number in ones, up to a zero.
unfoldable pub written : ℕ → String → String
written zero text = String.◌∷◌ "0" text
written (suc n) text = String.◌∷◌ "1" (written n text)

abbrev add_one : Option (ℕ × String) → Option (ℕ × String)
add_one none = none
add_one (some (n, text)) = some (suc n, text)

unfoldable pub read : String → Option (ℕ × String)
read String.[] = none
read (String.◌∷◌ c text) = if code c == 48 then some (0, text) else add_one (read text)

read-written : (n : ℕ) (text : String) → read (written n text) ≡ some (n, text)
unfolding read written
read-written zero text = refl
read-written (suc n) text = rw (read-written n text) refl

abbrev role_number : UserRole → ℕ
role_number UserRole.admin = 0
role_number UserRole.client = 1

abbrev role_of : ℕ → UserRole
role_of zero = UserRole.admin
role_of (suc n) = UserRole.client

role_of-role_number : (r : UserRole) → role_of (role_number r) ≡ r
role_of-role_number UserRole.admin = refl
role_of-role_number UserRole.client = refl

unfoldable pub token_of : TokenClaims → String
unfolding written
token_of claims =
    written claims.sub
      (written (role_number claims.role) (written claims.iat (written claims.exp claims.email)))

abbrev unexpired : Time → TokenClaims → Option TokenClaims
unexpired t claims = if leb t claims.exp then some claims else none

infixl 5 ◌>>=◌
abbrev ◌>>=◌ : {A B : Type 0} → Option A → (A → Option B) → Option B
none >>= k = none
some a >>= k = k a

-- The four numbers and the text behind them
unfoldable pub claims_of : Time → String → Option TokenClaims
unfolding read
claims_of t token = do
  (sub, token1) ← read token
  (role, token2) ← read token1
  (iat, token3) ← read token2
  (exp, email) ← read token3
  unexpired t (record { sub = sub; email = email; role = role_of role; iat = iat; exp = exp })

unfoldable pub plain : Crypto
plain = record {
  hash = λ password. password;
  verify = str_eq;
  encode = token_of;
  decode = claims_of;
}

pub plain-IsSound : IsSound plain
unfolding plain token_of claims_of
plain-IsSound = record {
  verifies = λ password. eq_refl password;
  decodes = λ t claims fresh.
      rw
        (
          read-written claims.sub _,
          read-written (role_number claims.role) _,
          read-written claims.iat _,
          read-written claims.exp _,
          fresh,
          role_of-role_number claims.role,
        )
        refl;
}

abbrev bob : RegisterRequest
bob = record { email = "b@x"; password = "secret12"; role = UserRole.client }

abbrev registered_bob : User
registered_bob = record {
  id = 100;
  email = "b@x";
  hashed_password = "secret12";
  role = UserRole.client;
}

bob_registered : (register plain bob shop).0 ≡ ok registered_bob
unfolding register user_by_email find insert_user generate_id commit hash_password plain
bob_registered = refl

bob_fresh :
    let s' = (register plain bob shop).1 in
    leb (s'.clock s'.ticks) (claims_at plain 60 registered_bob s').exp ≡ true
unfolding register user_by_email find insert_user generate_id commit hash_password plain
bob_fresh = refl

bob_stored : user_by_id 100 (register plain bob shop).1 ≡ some registered_bob
unfolding register user_by_email user_by_id find insert_user generate_id commit hash_password plain
bob_stored = refl

-- Bob, on a session whose clock is what the registration left.
sign_in_example :
    let s' = (register plain bob shop).1 in
    let claims = claims_at plain 60 registered_bob s' in
    (user_by_id 100 s' ≡ some registered_bob)
    × ((login plain 60 (record { email = "b@x"; password = "secret12" }) s').0
        ≡ ok (record { access_token = plain.encode claims; role = UserRole.client }))
    × ((get_current_user plain (some (plain.encode claims)) s').0 ≡ ok registered_bob)
sign_in_example =
    sign_in plain 60 bob shop (register plain bob shop).1 registered_bob plain-IsSound
      bob_registered bob_fresh bob_stored
