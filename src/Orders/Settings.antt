-- ===== src/Orders/Settings.antt =====
-- internal/orders/settings.go and delivery_zones.go: the knobs of the order lifecycle, and what a
-- delivery costs. Amounts are whole tyiyn, on which `roundSom` and `toTyiyn` change nothing.
use cozy_backend.Base.{ℕ, Bool, Option, none, some, leb, if◌then◌else◌}
use cozy_backend.Schema.Rows.{DeliveryZone}

pub record Settings : Type 0 where
  pub delivery_fee : ℕ
  pub max_open_orders : ℕ
  pub payment_pending_ttl : ℕ

abbrev pub default_settings : Settings
default_settings = record { delivery_fee = 20000; max_open_orders = 5; payment_pending_ttl = 1800 }

abbrev pub max_cart_qty : ℕ
max_cart_qty = 20

abbrev pub max_comment_len : ℕ
max_comment_len = 500

-- 24 hours
abbrev pub idempotency_window : ℕ
idempotency_window = 86400

abbrev pub max_idempotency_key_len : ℕ
max_idempotency_key_len = 64

abbrev pub max_payment_attempts : ℕ
max_payment_attempts = 10

-- `DeliveryZone.FeeFor`
unfoldable pub fee_for : DeliveryZone → ℕ → ℕ
fee_for z items_total = elim z.free_from [
  | none ↦ z.fee
  | some free ↦ if leb free items_total then 0 else z.fee
]

-- `deliveryFee`
unfoldable pub delivery_fee : Settings → Bool → Option DeliveryZone → ℕ → ℕ
unfolding fee_for
delivery_fee st is_delivery zone items_total =
    if is_delivery then elim zone [ none ↦ st.delivery_fee | some z ↦ fee_for z items_total ] else 0
