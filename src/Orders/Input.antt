-- ===== src/Orders/Input.antt =====
-- What a request to place an order must look like: the checks of internal/orders/order.go that
-- read no table, and the delivery zone.
use cozy_backend.Base.{
  ℕ, ◌+◌, Bool, true, false, not, ◌&&◌, Option, none, some, List, [], ◌∷◌, ltb, leb, ◌==◌,
  if◌then◌else◌, length, any_row, first_row,
}
use cozy_backend.Apperr.{
  Result, ok, err, invalid_fulfillment, empty_order, invalid_item, invalid_variant_id, invalid_qty,
  qty_too_large, comment_too_long, invalid_idempotency_key, delivery_zone_required,
  invalid_delivery_zone,
}
use cozy_backend.Dbtx.{pure, raise, gets, or_raise, raise_if, ◌>>=◌, ◌>>◌}
use cozy_backend.Schema.Text.{Text, IdText, uuid, other, is_blank, trim_space, byte_len}
use cozy_backend.Schema.Rows.{DeliveryZone}
use cozy_backend.Schema.Statements.{Action}
use cozy_backend.Orders.Settings.{max_cart_qty, max_comment_len, max_idempotency_key_len}

-- A Go `int` that may be negative: `negsuc n` is -(n + 1).
pub data ℤ : Type 0 where
  pos : ℕ → ℤ
  negsuc : ℕ → ℤ

pub record OrderItemInput : Type 0 where
  pub variant_id : IdText
  pub quantity : ℤ

pub record PlaceOrderInput : Type 0 where
  pub customer_id : ℕ
  pub items : List OrderItemInput
  pub address_id : Option IdText
  pub pickup_point_id : Option IdText
  pub delivery_zone_id : Option IdText
  pub comment : Text
  pub idempotency_key : Text
  pub clear_cart : Bool

-- A pointer to an id, "" made nil.
abbrev pub non_blank : Option IdText → Option IdText
non_blank none = none
non_blank (some id) = if is_blank id then none else some id

abbrev pub is_set : Option IdText → Bool
is_set none = false
is_set (some id) = not (is_blank id)

abbrev same_bool : Bool → Bool → Bool
same_bool true b = b
same_bool false b = not b

-- `validateFulfillment`: `hasAddr == hasPoint` is refused.
unfoldable pub validate_fulfillment : Option IdText → Option IdText → Result Unit
validate_fulfillment address_id pickup_point_id =
    if same_bool (is_set address_id) (is_set pickup_point_id)
    then err invalid_fulfillment
    else ok tt

-- The map `merged`, in the order of insertion; a missing key reads 0.
abbrev pub Quantities : Type 0
Quantities = List (ℕ × ℕ)

unfoldable pub qty_of : Quantities → ℕ → ℕ
qty_of [] v = 0
qty_of ((w, q) ∷ m) v = let rest = qty_of m v in if w == v then q else rest

-- `merged[v] += q`
unfoldable pub add_qty : ℕ → ℕ → Quantities → Quantities
add_qty v q [] = (v, q) ∷ []
add_qty v q ((w, r) ∷ m) =
    let rest = add_qty v q m in if w == v then (w, r + q) ∷ m else (w, r) ∷ rest

abbrev pub keys : Quantities → List ℕ
keys [] = []
keys ((v, _) ∷ m) = v ∷ keys m

-- The id and the quantity of one line, by the checks of the loop in their order.
unfoldable pub check_item : OrderItemInput → Result (ℕ × ℕ)
check_item it = elim it.variant_id [
  | other t ↦ if is_blank (other t) then err invalid_item else err invalid_variant_id
  | uuid v ↦ elim it.quantity [
    | negsuc _ ↦ err invalid_qty
    | pos q ↦
        if q == 0
        then err invalid_qty
        else if ltb max_cart_qty q
        then err qty_too_large
        else ok (v, q)
  ]
]

-- One round of the loop: the line is folded in, and its total must stay within the cap.
unfoldable pub merge_item : Result (ℕ × ℕ) → Quantities → Result Quantities
unfolding qty_of add_qty
merge_item (err e) m = err e
merge_item (ok (v, q)) m =
    let m' = add_qty v q m in if ltb max_cart_qty (qty_of m' v) then err qty_too_large else ok m'

unfoldable pub merge_items : Result Quantities → List OrderItemInput → Result Quantities
unfolding check_item merge_item
merge_items (err e) items = err e
merge_items (ok m) [] = ok m
merge_items (ok m) (it ∷ items) = merge_items (merge_item (check_item it) m) items

-- `sort.Strings`
unfoldable pub insert_sorted : ℕ → List ℕ → List ℕ
insert_sorted v [] = v ∷ []
insert_sorted v (w ∷ ws) = let rest = insert_sorted v ws in if leb v w then v ∷ w ∷ ws else w ∷ rest

unfoldable pub sort : List ℕ → List ℕ
unfolding insert_sorted
sort [] = []
sort (v ∷ vs) = insert_sorted v (sort vs)

-- `mergeItemQuantities`: the merged map and its keys, sorted.
unfoldable pub merge_item_quantities : List OrderItemInput → Result (Quantities × List ℕ)
unfolding merge_items sort
merge_item_quantities [] = err empty_order
merge_item_quantities (it ∷ items) = elim (merge_items (ok []) (it ∷ items)) [
  | err e ↦ err e
  | ok m ↦ ok (m, sort (keys m))
]

-- `normalizeComment`
unfoldable pub normalize_comment : Text → Result (Option Text)
normalize_comment c =
    let t = trim_space c in
    elim t [
      | [] ↦ ok none
      | d ∷ ds ↦
          if ltb max_comment_len (length (d ∷ ds)) then err comment_too_long else ok (some (d ∷ ds))
    ]

abbrev pub is_printable : ℕ → Bool
is_printable r = leb 0x21 r && leb r 0x7e

-- `normalizeIdempotencyKey`
unfoldable pub normalize_idempotency_key : Text → Result (Option Text)
normalize_idempotency_key k =
    let t = trim_space k in
    elim t [
      | [] ↦ ok none
      | d ∷ ds ↦
          if ltb max_idempotency_key_len (byte_len (d ∷ ds))
          then err invalid_idempotency_key
          else if any_row (λ r. not (is_printable r)) (d ∷ ds)
          then err invalid_idempotency_key
          else ok (some (d ∷ ds))
    ]

-- `resolveDeliveryZoneTx`, for a zone id that is no blank.
unfoldable pub resolve_zone : Option IdText → Action (Option DeliveryZone)
resolve_zone (some (other _)) = raise invalid_delivery_zone
resolve_zone (some (uuid id)) = do
  found ← gets (λ db. first_row (λ z. z.id == id && z.is_active) db.zones)
  z ← or_raise invalid_delivery_zone found
  pure (some z)
resolve_zone none = do
  zones_exist ← gets (λ db. any_row (λ z. z.is_active) db.zones)
  raise_if zones_exist delivery_zone_required
  pure none

unfoldable pub resolve_delivery_zone : Option IdText → Action (Option DeliveryZone)
unfolding resolve_zone
resolve_delivery_zone zone_id = resolve_zone (non_blank zone_id)
