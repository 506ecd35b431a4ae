-- ===== src/Orders/Cart.antt =====
-- The customer's cart (CartRepo in internal/orders/cart.go). `db.cart` stands in the order of
-- created_at; the customer is the one who is signed in, so the foreign key to customers holds.
pub mod Lines
pub mod Totals
mod Tests
use cozy_backend.Base.{
  ℕ, ◌+◌, Bool, true, false, not, ◌&&◌, Option, none, some, List, [], ◌∷◌, ltb, ◌==◌, if◌then◌else◌,
  any_row, first_row, where_rows, update_rows,
}
use cozy_backend.Apperr.{
  Result, ok, err, variant_required, invalid_variant_id, invalid_qty, qty_too_large,
  variant_not_found, product_unavailable, cart_item_not_found,
}
use cozy_backend.Dbtx.{lift, gets, or_raise, modify, raise_if, ◌>>=◌, ◌>>◌}
use cozy_backend.Schema.Text.{IdText, uuid, other, is_blank}
use cozy_backend.Schema.Rows.{CartItem, Variant, Db}
use cozy_backend.Schema.Statements.{Action}
use cozy_backend.Orders.Settings.{max_cart_qty}
use cozy_backend.Orders.Input.{ℤ, pos, negsuc}

-- `validateCartVariantID`, with the id that it accepts.
unfoldable pub validate_cart_variant_id : IdText → Result ℕ
validate_cart_variant_id (uuid v) = ok v
validate_cart_variant_id (other t) =
    if is_blank (other t) then err variant_required else err invalid_variant_id

-- `validateCartQty`, with the quantity that it accepts.
unfoldable pub validate_cart_qty : ℤ → Result ℕ
validate_cart_qty (negsuc _) = err invalid_qty
validate_cart_qty (pos q) =
    if q == 0 then err invalid_qty else if ltb max_cart_qty q then err qty_too_large else ok q

-- `WHERE customer_id = $1 AND variant_id = $2`, the primary key of cart_items
abbrev pub is_line : ℕ → ℕ → CartItem → Bool
is_line c v it = it.customer_id == c && it.variant_id == v

-- `LEAST(a, b)`
abbrev pub least : ℕ → ℕ → ℕ
least a b = if ltb b a then b else a

-- `INSERT … ON CONFLICT (customer_id, variant_id) DO UPDATE SET qty = LEAST(…)`
unfoldable pub upsert_line : ℕ → ℕ → ℕ → List CartItem → List CartItem
upsert_line c v n [] = record { customer_id = c; variant_id = v; qty = n } ∷ []
upsert_line c v n (it ∷ its) =
    let rest = upsert_line c v n its in
    if is_line c v it then record it { qty = least (it.qty + n) max_cart_qty } ∷ its else it ∷ rest

-- `SELECT p.is_active FROM product_variants pv JOIN products p … WHERE pv.id = $1`
unfoldable pub variant_is_active : ℕ → Db → Option Bool
variant_is_active v db = elim (first_row (λ pv. pv.id == v) db.variants) [
  | none ↦ none
  | some pv ↦ elim (first_row (λ p. p.id == pv.product_id) db.products) [
    | none ↦ none
    | some p ↦ some p.is_active
  ]
]

-- `Add`
unfoldable pub add : ℕ → IdText → ℤ → Action Unit
unfolding validate_cart_variant_id validate_cart_qty variant_is_active upsert_line
add c id qty = do
  v ← lift (validate_cart_variant_id id)
  n ← lift (validate_cart_qty qty)
  found ← gets (variant_is_active v)
  active ← or_raise variant_not_found found
  raise_if (not active) product_unavailable
  modify (λ db. record db { cart = upsert_line c v n db.cart })

-- `Remove`
unfoldable pub remove : ℕ → IdText → Action Unit
unfolding validate_cart_variant_id
remove c id = do
  v ← lift (validate_cart_variant_id id)
  modify (λ db. record db { cart = where_rows (λ it. not (is_line c v it)) db.cart })

-- The `UPDATE` of UpdateQty, and the error where it affects no row.
unfoldable pub set_line : ℕ → ℕ → ℕ → Action Unit
set_line c v n = do
  found ← gets (λ db. any_row (is_line c v) db.cart)
  modify
      (λ db. record db { cart = update_rows (is_line c v) (λ it. record it { qty = n }) db.cart })
  raise_if (not found) cart_item_not_found

-- `UpdateQty`; zero or less removes the line.
abbrev pub is_removal : ℤ → Bool
is_removal (negsuc _) = true
is_removal (pos q) = q == 0

unfoldable pub update_qty : ℕ → IdText → ℤ → Action Unit
unfolding validate_cart_variant_id validate_cart_qty remove set_line
update_qty c id qty = do
  v ← lift (validate_cart_variant_id id)
  if is_removal qty then remove c id else (lift (validate_cart_qty qty) >>= λ n. set_line c v n)

-- `List`
unfoldable pub list_cart : ℕ → Db → List CartItem
list_cart c db = where_rows (λ it. it.customer_id == c) db.cart

pub data CartEvent : Type 0 where
  adding : ℕ → IdText → ℤ → CartEvent
  updating_qty : ℕ → IdText → ℤ → CartEvent
  removing : ℕ → IdText → CartEvent

unfoldable pub cart_event : CartEvent → Action Unit
unfolding add update_qty remove
cart_event (adding c id qty) = add c id qty
cart_event (updating_qty c id qty) = update_qty c id qty
cart_event (removing c id) = remove c id

-- Operations in their order, the answers dropped.
unfoldable pub run_cart : List CartEvent → Db → Db
unfolding cart_event
run_cart [] db = db
run_cart (e ∷ es) db = run_cart es (cart_event e db).1
