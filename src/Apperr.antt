-- ===== src/Apperr.antt =====
-- internal/apperr/apperr.go: the errors that the business logic returns, one constructor for each
-- code and translation variant, with the parameters that the message shows. `internal` stands
-- for any other Go error (a database error, a constraint that Postgres refuses).
use cozy_backend.Base.{ℕ, Bool, true, false, ◌≡◌, refl, if◌then◌else◌}

pub data Error : Type 0 where
  -- 400
  invalid_fulfillment empty_order invalid_item invalid_variant_id invalid_qty qty_too_large : Error
  comment_too_long invalid_idempotency_key delivery_zone_required invalid_delivery_zone : Error
  invalid_status_transition amount_mismatch invalid_callback invalid_phone : Error
  otp_expired otp_invalid invalid_name invalid_password password_too_long variant_required : Error
  point_id_forbidden point_id_required invalid_role invalid_point_id : Error
  -- 401, 403
  invalid_webhook_token refresh_invalid invalid_credentials forbidden cancel_forbidden : Error
  -- 404
  order_not_found variant_not_found pickup_point_not_found address_not_found : Error
  payment_not_found payment_provider_not_found staff_not_found cart_item_not_found : Error
  -- 409
  product_unavailable sold_out stock_split order_not_cancellable payment_not_completed : Error
  payment_not_retryable too_many_attempts phone_taken last_owner not_owner : Error
  stock_left too_many_open_orders : ℕ → Error
  -- 429
  otp_cooldown otp_rate_limited otp_daily_limit otp_attempts_exceeded : Error
  refresh_rate_limited too_many_login_attempts : Error
  -- 502, 503, 500
  payment_create_failed sms_provider_unreachable sms_send_failed payments_not_configured internal :
      Error

-- `errors.As(err, &ae) && ae.Status < http.StatusInternalServerError`
abbrev pub is_client_error : Error → Bool
is_client_error payment_create_failed = false
is_client_error sms_provider_unreachable = false
is_client_error sms_send_failed = false
is_client_error payments_not_configured = false
is_client_error internal = false
is_client_error _ = true

pub data Result (A : Type 0) : Type 0 where
  ok : A → Result A
  err : Error → Result A

-- `return x, nil`
abbrev pub is_ok : {A : Type 0} → Result A → Bool
is_ok (ok _) = true
is_ok (err _) = false

-- A guard that let a result through.
pub passed :
    {A : Type 0} (b : Bool) (e : Error) (r : Result A) (a : A)
    → (if b then err e else r) ≡ ok a
    → (b ≡ false) × (r ≡ ok a)
passed true e r a h = cc
passed false e r a h = (refl, h)
