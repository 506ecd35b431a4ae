-- ===== src/Payments/Tests.antt =====
-- The theorems on payments at an order of the small shop whose payment was given up.
use cozy_backend.Base.{◌≡◌, refl, none, some, [], ◌∷◌, false}
use cozy_backend.Apperr.{ok}
use cozy_backend.Dbtx.Ensures.{Post}
use cozy_backend.Schema.Text.{codes, same_text}
use cozy_backend.Schema.Rows.{paid, refunded, Order, Payment, placed, failed, online_card, Db}
use cozy_backend.Payments.Provider.{CallbackEvent}
use cozy_backend.Payments.Callback.{unapplied, callback_tx, verdict, transition}
use cozy_backend.Payments.Expiry.{expire_one}
use cozy_backend.Payments.Repeats.{callback_repeated, verdict_keeps_money}
use cozy_backend.Payments.Money.{is_unpaid, IsAccounted, paid_event, callback_paid-IsAccounted}
use cozy_backend.Payments.Abandoned.{Expires, expire_one-Expires}
use cozy_backend.System.Shop.{shop, at_time}

abbrev declined_order : Order
declined_order = record {
  id = 10;
  order_number = codes "COZY-20250101-001";
  customer_id = 7;
  address_id = some 3;
  point_id = some 2;
  status = placed;
  payment_method = online_card;
  payment_status = some failed;
  total_amount = 770000;
  delivery_fee = 20000;
  refund_required = false;
  comment = none;
  idempotency_key = none;
  delivery_zone_id = none;
  created_at = 100;
  updated_at = 150;
}

abbrev declined_payment : Payment
declined_payment = record {
  id = 11;
  order_id = 10;
  provider = codes "mock";
  provider_tx_id = some (codes "tx");
  status = failed;
  amount = 770000;
  redirect_url = none;
  raw_webhook = none;
  created_at = 100;
  updated_at = 150;
}

abbrev declined_shop : Db
declined_shop = record shop { orders = declined_order ∷ []; payments = declined_payment ∷ [] }

abbrev declined_again : CallbackEvent
declined_again = record { external_id = codes "tx"; status = failed; amount = 770000; raw = [] }

callback_repeated_example :
    callback_tx (at_time 300 12) (codes "mock") declined_again [] declined_shop
    ≡ (ok (unapplied declined_payment), declined_shop)
callback_repeated_example =
    callback_repeated (at_time 300 12) (codes "mock") declined_again [] declined_shop
      declined_payment declined_order (unfold same_text in refl) refl refl

callback_paid-IsAccounted_example : Post (IsAccounted declined_payment declined_order) (
    callback_tx
      (at_time 300 12)
      (codes "mock")
      (paid_event (codes "tx") 770000 [])
      []
      declined_shop)
callback_paid-IsAccounted_example =
    callback_paid-IsAccounted (at_time 300 12) (codes "mock") (codes "tx") [] [] 770000
      declined_shop declined_payment declined_order (unfold same_text in refl) refl refl

expire_one-Expires_example :
    Post
      (Expires (at_time 5000 12) 1800 10 declined_shop)
      (expire_one (at_time 5000 12) 1800 10 declined_shop)
expire_one-Expires_example = expire_one-Expires (at_time 5000 12) 1800 10 declined_shop

verdict_keeps_money_example : is_unpaid refunded ≡ false
verdict_keeps_money_example =
    verdict_keeps_money paid refunded declined_order refl (unfold verdict transition in refl)
