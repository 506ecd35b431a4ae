-- ===== src/Payments/Provider.antt =====
-- The interface of a payment gateway (internal/payments/provider.go) and its values.
use cozy_backend.Base.{ℕ}
use cozy_backend.Apperr.{Result}
use cozy_backend.Schema.Text.{Text}
use cozy_backend.Schema.Rows.{PaymentStatus, Order}

-- `Session`
pub record Session : Type 0 where
  pub external_id : Text
  pub redirect_url : Text

-- `CallbackEvent`; the amount is in tyiyn, as `toTyiyn` rounds it.
pub record CallbackEvent : Type 0 where
  pub external_id : Text
  pub status : PaymentStatus
  pub amount : ℕ
  pub raw : Text

-- `Provider`. A session is opened for a payment id of an order, and a callback is parsed from the
-- token header and the body. `raw_json` is what is stored of an event's raw text: the text if
-- `json.Valid` accepts it, else the text quoted as a JSON string.
pub record Provider : Type 0 where
  pub name : Text
  pub ready : Result Unit
  pub create_payment : ℕ → Order → Result Session
  pub parse_callback : Text → Text → Result CallbackEvent
  pub raw_json : Text → Text
