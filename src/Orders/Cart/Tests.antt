-- ===== src/Orders/Cart/Tests.antt =====
-- A cart of the small shop (CartRepo in internal/orders/cart.go).
use cozy_backend.Base.{◌≡◌, refl, List, [], ◌∷◌, arith}
use cozy_backend.Apperr.{ok, err, cart_item_not_found}
use cozy_backend.Dbtx.{◌>>=◌}
use cozy_backend.Schema.Text.{uuid}
use cozy_backend.Schema.Rows.{Db}
use cozy_backend.Orders.Input.{pos}
use cozy_backend.Orders.Cart.{
  validate_cart_variant_id, validate_cart_qty, upsert_line, variant_is_active, add, set_line,
  update_qty, list_cart, CartEvent, adding, updating_qty, cart_event, run_cart,
}
use cozy_backend.Orders.Cart.Lines.{IsWithin, run_cart-IsWithin}
use cozy_backend.Orders.Cart.Totals.{qty_in, cart_event-Leaves}
use cozy_backend.System.Shop.{shop}

abbrev visit : List CartEvent
visit =
    adding 7 (uuid 1) (pos 15) ∷ adding 7 (uuid 1) (pos 15) ∷ updating_qty 7 (uuid 1) (pos 3) ∷ []

-- The customer of the shop has taken 18 pieces.
abbrev full_cart : Db
full_cart = record shop { cart = record { customer_id = 7; variant_id = 1; qty = 18 } ∷ [] }

visit_runs :
    list_cart 7 (run_cart visit shop) ≡ record { customer_id = 7; variant_id = 1; qty = 3 } ∷ []
unfolding list_cart run_cart cart_event add update_qty set_line upsert_line variant_is_active
    validate_cart_variant_id validate_cart_qty ◌>>=◌
visit_runs = refl

no_line : (update_qty 7 (uuid 1) (pos 3) shop).0 ≡ err cart_item_not_found
unfolding update_qty set_line validate_cart_variant_id validate_cart_qty ◌>>=◌
no_line = refl

add_five : (cart_event (adding 7 (uuid 1) (pos 5)) full_cart).0 ≡ ok tt
unfolding cart_event add upsert_line variant_is_active validate_cart_variant_id validate_cart_qty
    ◌>>=◌
add_five = refl

run_cart-IsWithin_example : IsWithin (run_cart visit shop)
run_cart-IsWithin_example = run_cart-IsWithin visit shop (tt, λ c v. omega arith)

-- Five more pieces on top of 18 make 20.
cart_event-Leaves_example :
    qty_in 7 1 (cart_event (adding 7 (uuid 1) (pos 5)) full_cart).1.cart ≡ 20
unfolding cart_event add upsert_line variant_is_active validate_cart_variant_id validate_cart_qty
    ◌>>=◌ qty_in
cart_event-Leaves_example = cart_event-Leaves (adding 7 (uuid 1) (pos 5)) 7 1 full_cart
