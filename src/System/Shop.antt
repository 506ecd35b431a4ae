-- ===== src/System/Shop.antt =====
-- A small shop: one product with one variant, one point that stocks it, one customer, a gateway.
use cozy_backend.Base.{ℕ, Option, none, some, [], ◌∷◌, true, ◌==◌, if◌then◌else◌}
use cozy_backend.Apperr.{ok}
use cozy_backend.Schema.Text.{codes, uuid}
use cozy_backend.Schema.Rows.{Db, Env, paid}
use cozy_backend.Orders.Input.{PlaceOrderInput, pos}
use cozy_backend.Payments.Provider.{Provider}

abbrev pub shop_stock : ℕ → ℕ → Option ℕ
shop_stock v p = if v == 1 then (if p == 2 then some 5 else none) else none

-- Nothing is ordered yet.
abbrev pub shop : Db
shop = record {
  orders = [];
  items = [];
  history = [];
  payments = [];
  stock = shop_stock;
  cart = [];
  variants =
      record { id = 1; product_id = 1; size = codes "M"; color = []; price_override = none } ∷ [];
  products = record { id = 1; name_ru = codes "Plaid"; base_price = 250000; is_active = true } ∷ [];
  points = record { id = 2; is_active = true } ∷ [];
  addresses = record { id = 3; customer_id = 7 } ∷ [];
  zones = [];
}

abbrev pub at_time : ℕ → ℕ → Env
at_time now id = record { now = now; today = codes "20250101"; order_id = id; payment_id = id }

-- Three pieces of the variant, brought to the customer's address.
abbrev pub three_pieces : PlaceOrderInput
three_pieces = record {
  customer_id = 7;
  items = record { variant_id = uuid 1; quantity = pos 3 } ∷ [];
  address_id = some (uuid 3);
  pickup_point_id = none;
  delivery_zone_id = none;
  comment = [];
  idempotency_key = codes "k1";
  clear_cart = true;
}

-- A gateway that reports every payment as paid in full.
abbrev pub gateway : Provider
gateway = record {
  name = codes "mock";
  ready = ok tt;
  create_payment = λ id o. ok (record { external_id = id ∷ []; redirect_url = codes "url" });
  parse_callback =
      λ header body. ok (record { external_id = body; status = paid; amount = 770000; raw = body });
  raw_json = λ raw. raw;
}
