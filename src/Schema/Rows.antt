-- ===== src/Schema/Rows.antt =====
-- The rows of the tables, and the Go types that mirror them (internal/orders, internal/payments,
-- internal/catalog). Amounts of money are whole tyiyn (1/100 som): the columns are NUMERIC(10,2).
-- Times are seconds.
use cozy_backend.Base.{ℕ, Bool, true, false, Option, List}
use cozy_backend.Schema.Text.{Text}

pub data OrderStatus : Type 0 where
  placed confirmed courier_assigned delivered cancelled : OrderStatus

pub data PaymentMethod : Type 0 where
  online_card cash_on_delivery : PaymentMethod

pub data PaymentStatus : Type 0 where
  pending paid failed cancelled refunded : PaymentStatus

pub data Role : Type 0 where
  owner manager point_staff : Role

pub data ActorType : Type 0 where
  staff customer system : ActorType

-- `Actor`: the staff id and role are those of a staff actor only.
pub record Actor : Type 0 where
  pub type : ActorType
  pub staff_id : Option ℕ
  pub role : Option Role

pub record Order : Type 0 where
  pub id : ℕ
  pub order_number : Text
  pub customer_id : ℕ
  pub address_id : Option ℕ
  pub point_id : Option ℕ
  pub status : OrderStatus
  pub payment_method : PaymentMethod
  pub payment_status : Option PaymentStatus
  pub total_amount : ℕ
  pub delivery_fee : ℕ
  pub refund_required : Bool
  pub comment : Option Text
  pub idempotency_key : Option Text
  pub delivery_zone_id : Option ℕ
  pub created_at : ℕ
  pub updated_at : ℕ

pub record OrderItem : Type 0 where
  pub order_id : ℕ
  pub variant_id : ℕ
  pub product_name_snapshot : Text
  pub size_snapshot : Text
  pub color_snapshot : Text
  pub quantity : ℕ
  pub price : ℕ

pub record StatusChange : Type 0 where
  pub order_id : ℕ
  pub from_status : Option OrderStatus
  pub to_status : OrderStatus
  pub actor_type : ActorType
  pub actor_staff_id : Option ℕ
  pub note : Option Text
  pub created_at : ℕ

pub record Payment : Type 0 where
  pub id : ℕ
  pub order_id : ℕ
  pub provider : Text
  pub provider_tx_id : Option Text
  pub status : PaymentStatus
  pub amount : ℕ
  pub redirect_url : Option Text
  pub raw_webhook : Option Text
  pub created_at : ℕ
  pub updated_at : ℕ

pub record Variant : Type 0 where
  pub id : ℕ
  pub product_id : ℕ
  pub size : Text
  pub color : Text
  pub price_override : Option ℕ

pub record Product : Type 0 where
  pub id : ℕ
  pub name_ru : Text
  pub base_price : ℕ
  pub is_active : Bool

pub record Point : Type 0 where
  pub id : ℕ
  pub is_active : Bool

pub record Address : Type 0 where
  pub id : ℕ
  pub customer_id : ℕ

pub record DeliveryZone : Type 0 where
  pub id : ℕ
  pub name_ru : Text
  pub name_ky : Text
  pub fee : ℕ
  pub free_from : Option ℕ
  pub is_active : Bool

pub record CartItem : Type 0 where
  pub customer_id : ℕ
  pub variant_id : ℕ
  pub qty : ℕ

-- `stock` gives the quantity column of the row (variant_id, point_id), `none` where there is no
-- row: the pair is the primary key. `points` stands in the order of its ids.
pub record Db : Type 0 where
  pub orders : List Order
  pub items : List OrderItem
  pub history : List StatusChange
  pub payments : List Payment
  pub stock : ℕ → ℕ → Option ℕ
  pub cart : List CartItem
  pub variants : List Variant
  pub products : List Product
  pub points : List Point
  pub addresses : List Address
  pub zones : List DeliveryZone

-- What a request finds outside the tables: the clock in seconds, the day as `YYYYMMDD` in UTC, and
-- the ids that `gen_random_uuid()` gives to the rows that it inserts.
pub record Env : Type 0 where
  pub now : ℕ
  pub today : Text
  pub order_id : ℕ
  pub payment_id : ℕ

abbrev pub is_placed : OrderStatus → Bool
is_placed placed = true
is_placed _ = false

abbrev pub is_cancelled : OrderStatus → Bool
is_cancelled cancelled = true
is_cancelled _ = false

abbrev pub is_online : PaymentMethod → Bool
is_online online_card = true
is_online cash_on_delivery = false

abbrev pub is_pending : PaymentStatus → Bool
is_pending pending = true
is_pending _ = false

abbrev pub is_paid : PaymentStatus → Bool
is_paid paid = true
is_paid _ = false
