-- ===== src/Orders/Stock.antt =====
-- Stock and the catalog as an order sees them (internal/orders/order.go): variant snapshots, the
-- point that packs the order, and the stock that is taken under the row locks.
use cozy_backend.Base.{
  ℕ, Bool, true, false, Option, none, some, List, [], ◌∷◌, ltb, ◌==◌, if◌then◌else◌, first_row,
  where_rows, not,
}
use cozy_backend.Apperr.{
  Error, variant_not_found, product_unavailable, sold_out, stock_left, stock_split, internal,
}
use cozy_backend.Dbtx.{pure, raise, gets, or_raise, raise_if, ◌>>=◌, ◌>>◌}
use cozy_backend.Schema.Text.{Text, IdText, uuid, other}
use cozy_backend.Schema.Rows.{Variant, Product, Point, OrderItem, Db}
use cozy_backend.Schema.Statements.{Action, quantity_of, take_stock, return_stock}
use cozy_backend.Orders.Input.{Quantities, qty_of, add_qty, keys, sort}

-- `variantSnapshot`
pub record VariantSnapshot : Type 0 where
  pub product_id : ℕ
  pub product_name : Text
  pub size : Text
  pub color : Text
  pub price : ℕ
  pub active : Bool

abbrev pub Snapshots : Type 0
Snapshots = ℕ → Option VariantSnapshot

-- One row of the join of product_variants and products.
abbrev pub snapshot_row : Variant → Product → VariantSnapshot
snapshot_row pv p = record {
  product_id = pv.product_id;
  product_name = p.name_ru;
  size = pv.size;
  color = pv.color;
  price = elim pv.price_override [ none ↦ p.base_price | some q ↦ q ];
  active = p.is_active;
}

-- `loadVariantSnapshots`: the map that it returns, as a function of the id; `none` where the
-- variant does not exist.
unfoldable pub load_variant_snapshots : Db → Snapshots
load_variant_snapshots db id = elim (first_row (λ pv. pv.id == id) db.variants) [
  | none ↦ none
  | some pv ↦ elim (first_row (λ p. p.id == pv.product_id) db.products) [
    | none ↦ none
    | some p ↦ some (snapshot_row pv p)
  ]
]

-- The loop over the snapshots in createOrder: every variant exists, and its product is sold.
unfoldable pub check_snapshot : Option VariantSnapshot → Action Unit
check_snapshot none = raise variant_not_found
check_snapshot (some snap) = raise_if (not snap.active) product_unavailable

unfoldable pub check_snapshots : Snapshots → List ℕ → Action Unit
unfolding check_snapshot
check_snapshots snapshots [] = pure tt
check_snapshots snapshots (id ∷ ids) =
    check_snapshot (snapshots id) >> check_snapshots snapshots ids

-- `pointIsActive`: the id reaches Postgres, which refuses one that is no UUID.
unfoldable pub point_is_active : IdText → Action (ℕ × Bool)
point_is_active (other _) = raise internal
point_is_active (uuid id) = do
  row ← gets (λ db. first_row (λ (p : Point). p.id == id) db.points)
  pure (id, elim row [ none ↦ false | some p ↦ p.is_active ])

-- `stockError`
unfoldable pub stock_error : ℕ → Error
stock_error available = if available == 0 then sold_out else stock_left available

-- `pointCoversStock`: a missing row covers nothing.
unfoldable pub point_covers_stock : (ℕ → ℕ → Option ℕ) → ℕ → Quantities → List ℕ → Bool
point_covers_stock stock point m [] = true
point_covers_stock stock point m (v ∷ vs) =
    let rest = point_covers_stock stock point m vs in
    elim (stock v point) [ none ↦ false | some q ↦ if ltb q (qty_of m v) then false else rest ]

-- The loop of pickFulfillmentPoint: the first of the points that covers every line.
unfoldable pub first_cover : (ℕ → ℕ → Option ℕ) → Quantities → List ℕ → List Point → Option ℕ
unfolding point_covers_stock
first_cover stock m vs [] = none
first_cover stock m vs (p ∷ ps) =
    let rest = first_cover stock m vs ps in
    if point_covers_stock stock p.id m vs then some p.id else rest

abbrev max_ℕ : ℕ → ℕ → ℕ
max_ℕ a b = if ltb a b then b else a

-- `COALESCE(MAX(s.quantity), 0)` over the rows of active points.
unfoldable pub best_quantity : (ℕ → ℕ → Option ℕ) → ℕ → List Point → ℕ
best_quantity stock v [] = 0
best_quantity stock v (p ∷ ps) = max_ℕ (quantity_of (stock v p.id)) (best_quantity stock v ps)

-- `insufficientStockForDelivery`: names the first line that no active point has enough of.
unfoldable pub insufficient_stock_for_delivery :
    (ℕ → ℕ → Option ℕ) → Quantities → List Point → List ℕ → Error
unfolding best_quantity stock_error
insufficient_stock_for_delivery stock m ps [] = stock_split
insufficient_stock_for_delivery stock m ps (v ∷ vs) =
    let rest = insufficient_stock_for_delivery stock m ps vs in
    if ltb (best_quantity stock v ps) (qty_of m v)
    then stock_error (best_quantity stock v ps)
    else rest

abbrev pub active_points : Db → List Point
active_points db = where_rows (λ p. p.is_active) db.points

-- `pickFulfillmentPoint`
unfoldable pub pick_fulfillment_point : Quantities → List ℕ → Action ℕ
unfolding first_cover
pick_fulfillment_point m vs = do
  points ← gets active_points
  stock ← gets (λ db. db.stock)
  or_raise (insufficient_stock_for_delivery stock m points vs) (first_cover stock m vs points)

-- One round of the loop of lockAndDecrementStock.
unfoldable pub lock_and_decrement_one : ℕ → ℕ → ℕ → Action Unit
unfolding stock_error
lock_and_decrement_one point v need = do
  row ← gets (λ db. db.stock v point)
  q ← or_raise (stock_error 0) row
  raise_if (ltb q need) (stock_error q)
  take_stock v point need

-- `lockAndDecrementStock`
unfoldable pub lock_and_decrement_stock : ℕ → Quantities → List ℕ → Action Unit
unfolding lock_and_decrement_one
lock_and_decrement_stock point m [] = pure tt
lock_and_decrement_stock point m (v ∷ vs) =
    lock_and_decrement_one point v (qty_of m v) >> lock_and_decrement_stock point m vs

-- The loop over `order_items` in restockOrderTx: the quantities of an order, by variant.
unfoldable pub order_quantities : ℕ → List OrderItem → Quantities
unfolding add_qty
order_quantities order_id [] = []
order_quantities order_id (it ∷ items) =
    let rest = order_quantities order_id items in
    if it.order_id == order_id then add_qty it.variant_id it.quantity rest else rest

-- Its second loop: each variant goes back to the point.
unfoldable pub return_all : ℕ → Quantities → List ℕ → Db → Db
return_all point m [] db = db
return_all point m (v ∷ vs) db = return_all point m vs (return_stock v point (qty_of m v) db)

-- `restockOrderTx`
unfoldable pub restock_order_tx : ℕ → ℕ → Db → Db
unfolding order_quantities return_all sort
restock_order_tx order_id point db =
    let m = order_quantities order_id db.items in return_all point m (sort (keys m)) db
