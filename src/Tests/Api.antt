-- ===== src/Tests/Api.antt =====
-- Requests of a client to the small shop of Tests.Shop, with the cipher of Tests.Access.
use inventory_reservation_or.Prelude.{String, ◌≡◌, refl, none, some, [], ◌∷◌, arith}
use inventory_reservation_or.Prelude.Int.{pos}
use inventory_reservation_or.Models.{UserRole, InventoryAdjustmentRequest}
use inventory_reservation_or.Session.{ok}
use inventory_reservation_or.Table.{find}
use inventory_reservation_or.Security.{decode_access_token}
use inventory_reservation_or.Repositories.Catalog.{user_by_id}
use inventory_reservation_or.Api.Deps.{get_current_user}
use inventory_reservation_or.Api.Requests.{
  OrderBody, parse_order, parse_items, set_of, no_duplicate_products,
}
use inventory_reservation_or.Api.Accepted.{
  IsAccepted, parse_order-IsAccepted, IsAccepted-parse_order,
}
use inventory_reservation_or.Api.Server.{Config, post_order, serve}
use inventory_reservation_or.Api.Atomic.{ServeEffect, serve_effect}
use inventory_reservation_or.Tests.Shop.{shop, shop-IsValid, one_hash, alice, two_lamps}
use inventory_reservation_or.Tests.Access.{plain, token_of, claims_of, written, read}

abbrev pub config : Config
config = record {
  crypto = plain;
  validate_email = λ text. some text;
  request_hash = one_hash;
  reservation_timeout = 30;
  jwt_expire_minutes = 60;
}

-- Alice's token, for a while.
unfoldable pub alice_token : String
unfolding plain
alice_token =
    plain.encode (record { sub = 3; email = "a@x"; role = UserRole.client; iat = 0; exp = 99 })

abbrev lamps_body : OrderBody
lamps_body = record {
  items = record { product_id = 1; quantity = pos 2 } ∷ [];
  payment_token = "tok";
}

abbrev delivery : InventoryAdjustmentRequest
delivery = record { product_id = 1; warehouse_id = 2; quantity = pos 4; reason = "delivery" }

lamps_accepted : parse_order lamps_body ≡ some two_lamps
unfolding parse_order parse_items no_duplicate_products set_of
lamps_accepted = refl

parse_order-IsAccepted_example : IsAccepted lamps_body two_lamps
parse_order-IsAccepted_example = parse_order-IsAccepted lamps_body two_lamps lamps_accepted

IsAccepted-parse_order_example : parse_order lamps_body ≡ some two_lamps
IsAccepted-parse_order_example = IsAccepted-parse_order lamps_body two_lamps (record {
  lines = (refl, refl, omega arith, tt);
  some_line = omega arith;
  distinct = (refl, tt);
  token = refl;
})

serve_effect_example :
    ServeEffect shop (serve config (post_order lamps_body none (some alice_token)) shop)
serve_effect_example =
    serve_effect config (post_order lamps_body none (some alice_token)) shop shop-IsValid

-- Alice is no administrator.
alice_asks : (get_current_user plain (some alice_token) shop).0 ≡ ok alice
unfolding get_current_user decode_access_token user_by_id find plain alice_token token_of claims_of
    written read
alice_asks = refl
