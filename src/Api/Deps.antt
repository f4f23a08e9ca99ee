-- ===== src/Api/Deps.antt =====
-- src/api/deps.py: the database session of a request, the user behind a bearer token, and roles.
use inventory_reservation_or.Prelude.{String, Bool, true, false, not, ◌||◌, Option, List, [], ◌∷◌}
use inventory_reservation_or.Models.{UserRole, User}
use inventory_reservation_or.Session.{
  Action, pure, gets, lift, or_raise, raise_if, ◌>>=◌, ◌>>◌, rollback, unauthorized, forbidden,
}
use inventory_reservation_or.Security.{Crypto, decode_access_token}
use inventory_reservation_or.Repositories.Catalog.{user_by_id}

-- `get_db`: the session is closed after the request, which undoes what is not committed.
unfoldable pub get_db : {A : Type 0} → Action A → Action A
unfolding rollback
get_db action s = let (r, s') = action s in (r, rollback s')

abbrev pub same_role : UserRole → UserRole → Bool
same_role UserRole.admin UserRole.admin = true
same_role UserRole.client UserRole.client = true
same_role _ _ = false

abbrev pub is_allowed : UserRole → List UserRole → Bool
is_allowed role [] = false
is_allowed role (r ∷ roles) = same_role r role || is_allowed role roles

module _ (crypto : Crypto) where
  -- The user of the credentials, with `None` for a request without them.
  unfoldable pub get_current_user : Option String → Action User
  unfolding decode_access_token user_by_id
  get_current_user credentials = do
    token ← or_raise credentials (unauthorized "Missing bearer token")
    decoded ← lift (decode_access_token crypto token)
    claims ← or_raise decoded (unauthorized "Invalid or expired token")
    or_raise (← gets (user_by_id claims.sub)) (unauthorized "User no longer exists")

  unfoldable pub require_roles : List UserRole → Option String → Action User
  unfolding get_current_user
  require_roles allowed_roles credentials = do
    current_user ← get_current_user credentials
    raise_if (not (is_allowed current_user.role allowed_roles)) forbidden
    pure current_user
