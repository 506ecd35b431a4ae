-- ===== src/Orders/Cart/Totals.antt =====
-- What the operations on a cart do to its quantities (CartRepo in internal/orders/cart.go).
use cozy_backend.Base.{
  ℕ, ◌+◌, ◌≤◌, ◌≡◌, refl, sym, ap, subst, Bool, true, false, not, ◌&&◌, Option, none, some, List,
  [], ◌∷◌, arith, ltb, ◌==◌, if◌then◌else◌, where_rows, update_rows, any_row, if_both,
}
use cozy_backend.Apperr.{
  Error, Result, ok, err, passed, invalid_qty, qty_too_large, cart_item_not_found,
}
use cozy_backend.Dbtx.{Tx, lift, gets, or_raise, raise_if, continue, ◌>>=◌}
use cozy_backend.Schema.Text.{Text, IdText, uuid, other, is_blank}
use cozy_backend.Schema.Rows.{CartItem, Db}
use cozy_backend.Orders.Settings.{max_cart_qty}
use cozy_backend.Orders.Input.{ℤ, pos, negsuc}
use cozy_backend.Orders.Cart.{
  validate_cart_variant_id, validate_cart_qty, is_line, least, upsert_line, add, remove, set_line,
  update_qty, CartEvent, adding, updating_qty, removing, cart_event,
}
use cozy_backend.Orders.Cart.Lines.{validate_cart_qty-range}

-- The pieces of a variant in a customer's cart, 0 without a line.
unfoldable pub qty_in : ℕ → ℕ → List CartItem → ℕ
qty_in c v [] = 0
qty_in c v (it ∷ its) = let rest = qty_in c v its in if is_line c v it then it.qty else rest

abbrev nat_of : ℤ → ℕ
nat_of (negsuc _) = 0
nat_of (pos q) = q

abbrev is_id : ℕ → IdText → Bool
is_id v (uuid w) = w == v
is_id v (other _) = false

-- What an accepted operation makes of the pieces `old` of one variant in one customer's cart.
abbrev pub wanted : CartEvent → ℕ → ℕ → ℕ → ℕ
wanted (adding c id qty) a b old =
    if c == a && is_id b id then least (old + nat_of qty) max_cart_qty else old
wanted (updating_qty c id qty) a b old = if c == a && is_id b id then nat_of qty else old
wanted (removing c id) a b old = if c == a && is_id b id then 0 else old

-- Success leaves `new` pieces, an error `old` ones.
abbrev pub Leaves : ℕ → ℕ → ℕ → ℕ → Result Unit × Db → Type 0
Leaves a b old new (ok _, db) = qty_in a b db.cart ≡ new
Leaves a b old new (err _, db) = qty_in a b db.cart ≡ old

qty_in-upsert :
    (a b c v n : ℕ) (its : List CartItem)
    → n ≤ max_cart_qty
    → qty_in a b (upsert_line c v n its)
      ≡ (if c == a && v == b then least (qty_in a b its + n) max_cart_qty else qty_in a b its)
unfolding upsert_line qty_in
qty_in-upsert a b c v n [] h = ground (arith, h)
qty_in-upsert a b c v n (it ∷ its) h = ground (arith, h, qty_in-upsert a b c v n its h)

qty_in-where :
    (a b c v : ℕ) (its : List CartItem)
    → qty_in a b (where_rows (λ it. not (is_line c v it)) its)
      ≡ (if c == a && v == b then 0 else qty_in a b its)
unfolding qty_in
qty_in-where a b c v [] = ground arith
qty_in-where a b c v (it ∷ its) = ground (arith, qty_in-where a b c v its)

qty_in-update :
    (a b c v n : ℕ) (its : List CartItem)
    → qty_in a b (update_rows (is_line c v) (λ it. record it { qty = n }) its)
      ≡ (if c == a && v == b && any_row (is_line c v) its then n else qty_in a b its)
unfolding qty_in
qty_in-update a b c v n [] = ground arith
qty_in-update a b c v n (it ∷ its) = ground (arith, qty_in-update a b c v n its)

module _ (a b new : ℕ) (db : Db) where
  -- A check that writes nothing comes before the rest of the block.
  after_result :
      {A : Type 0} (r : Result A) (s : Db) (k : A → Tx Db Unit)
      → s ≡ db
      → ((x : A) → r ≡ ok x → Leaves a b (qty_in a b db.cart) new (k x db))
      → Leaves a b (qty_in a b db.cart) new (continue r k s)
  after_result (ok x) s k same h =
      subst (λ t. Leaves a b (qty_in a b db.cart) new (k x t)) (sym same) (h x refl)
  after_result (err e) s k same h = ap (λ t. qty_in a b t.cart) same

  after_check :
      {A : Type 0} (m : Tx Db A) (k : A → Tx Db Unit)
      → (m db).1 ≡ db
      → ((x : A) → (m db).0 ≡ ok x → Leaves a b (qty_in a b db.cart) new (k x db))
      → Leaves a b (qty_in a b db.cart) new ((m >>= k) db)
  unfolding ◌>>=◌
  after_check m k same h = after_result (m db).0 (m db).1 k same h

  -- A malformed id is refused.
  after_bad_id :
      (t : Text) (k : ℕ → Tx Db Unit)
      → Leaves a b (qty_in a b db.cart) new ((lift (validate_cart_variant_id (other t)) >>= k) db)
  unfolding ◌>>=◌ validate_cart_variant_id
  after_bad_id t k =
      if_both (λ r. Leaves a b (qty_in a b db.cart) new (continue r k db)) (is_blank (other t))
        (λ _. refl) (λ _. refl)

or_raise-same : {A : Type 0} (e : Error) (o : Option A) (db : Db) → (or_raise e o db).1 ≡ db
or_raise-same e none db = refl
or_raise-same e (some x) db = refl

raise_if-same : (t : Bool) (e : Error) (db : Db) → (raise_if t e db).1 ≡ db
raise_if-same true e db = refl
raise_if-same false e db = refl

validate_cart_qty-same : (q n : ℕ) → validate_cart_qty (pos q) ≡ ok n → q ≡ n
unfolding validate_cart_qty
validate_cart_qty-same q n h =
    let over = passed (q == 0) invalid_qty _ n h in
    let fits = passed (ltb max_cart_qty q) qty_too_large _ n over.1 in cc

add-Leaves :
    (a b c v q : ℕ) (db : Db)
    → Leaves a b
        (qty_in a b db.cart)
        (wanted (adding c (uuid v) (pos q)) a b (qty_in a b db.cart))
        (add c (uuid v) (pos q) db)
unfolding add validate_cart_variant_id
add-Leaves a b c v q db =
    let new = wanted (adding c (uuid v) (pos q)) a b (qty_in a b db.cart) in
    after_check a b new db (lift (ok v)) _ refl λ w same.
      after_check a b new db (lift (validate_cart_qty (pos q))) _ refl λ n e.
        after_check a b new db (gets _) _ refl λ found _.
          after_check a b new db (or_raise _ found) _ (or_raise-same _ found db) λ active _.
            after_check a b new db (raise_if _ _) _ (raise_if-same _ _ db) λ _ _.
              let is_v : v ≡ w = cc in
              let is_q = validate_cart_qty-same q n e in
              ground (
                arith,
                is_v,
                is_q,
                qty_in-upsert a b c w n db.cart (validate_cart_qty-range (pos q) n e).1,
              )

remove-Leaves :
    (a b c v : ℕ) (db : Db)
    → Leaves a b
        (qty_in a b db.cart)
        (if c == a && v == b then 0 else qty_in a b db.cart)
        (remove c (uuid v) db)
unfolding remove validate_cart_variant_id
remove-Leaves a b c v db =
    after_check a b (if c == a && v == b then 0 else qty_in a b db.cart) db (lift (ok v)) _ refl
      λ w same. let is_v : v ≡ w = cc in ground (arith, is_v, qty_in-where a b c w db.cart)

-- The error where no line was there leaves the pieces as they were.
updated-Leaves :
    (a b c v n : ℕ) (db db' : Db) (found : Bool)
    → any_row (is_line c v) db.cart ≡ found
    → qty_in a b db'.cart
      ≡ (if c == a && v == b && any_row (is_line c v) db.cart then n else qty_in a b db.cart)
    → Leaves a b
        (qty_in a b db.cart)
        (if c == a && v == b then n else qty_in a b db.cart)
        (raise_if (not found) cart_item_not_found db')
updated-Leaves a b c v n db db' true e h = ground (arith, e, h)
updated-Leaves a b c v n db db' false e h = ground (arith, e, h)

set_line-Leaves :
    (a b c v n : ℕ) (db : Db)
    → Leaves a b
        (qty_in a b db.cart)
        (if c == a && v == b then n else qty_in a b db.cart)
        (set_line c v n db)
unfolding set_line ◌>>=◌
set_line-Leaves a b c v n db =
    updated-Leaves a b c v n db _ (any_row (is_line c v) db.cart) refl
      (qty_in-update a b c v n db.cart)

update_qty-Leaves :
    (a b c v q : ℕ) (db : Db)
    → Leaves a b
        (qty_in a b db.cart)
        (if c == a && v == b then q else qty_in a b db.cart)
        (update_qty c (uuid v) (pos q) db)
unfolding update_qty validate_cart_variant_id
update_qty-Leaves a b c v q db =
    let new = if c == a && v == b then q else qty_in a b db.cart in
    let old = qty_in a b db.cart in
    after_check a b new db (lift (ok v)) _ refl λ w same.
      let is_v : v ≡ w = cc in
      if_both (λ (m : Tx Db Unit). Leaves a b old new (m db)) (q == 0)
        (λ zero_q.
          let is_zero : q ≡ 0 = ground (arith, zero_q) in
          subst (λ k. Leaves a b old (if c == a && v == b then k else old) (remove c (uuid v) db))
            (sym is_zero) (remove-Leaves a b c v db))
        λ _. after_check a b new db (lift (validate_cart_qty (pos q))) _ refl λ n e.
          let is_q = validate_cart_qty-same q n e in
          subst (λ k. Leaves a b old (if c == a && v == b then k else old) (set_line c w n db))
            (sym is_q)
            (subst (λ u. Leaves a b old (if c == a && u == b then n else old) (set_line c w n db))
              (sym is_v) (set_line-Leaves a b c w n db))

-- For every customer and every variant: after an accepted operation of CartRepo the cart holds the
-- pieces of the variant that the operation asks for (an addition adds up to the cap of 20, a change
-- sets, a change to zero or less and a removal clear), or, where the operation is about another
-- customer or variant, the pieces that it held before; after a refused one it holds what it held.
pub cart_event-Leaves :
    (e : CartEvent) (a b : ℕ) (db : Db)
    → Leaves a b (qty_in a b db.cart) (wanted e a b (qty_in a b db.cart)) (cart_event e db)
unfolding cart_event add update_qty remove validate_cart_variant_id validate_cart_qty ◌>>=◌
cart_event-Leaves (adding c (other t) qty) a b db = after_bad_id a b _ db t _
cart_event-Leaves (adding c (uuid v) (negsuc q)) a b db = refl
cart_event-Leaves (adding c (uuid v) (pos q)) a b db = add-Leaves a b c v q db
cart_event-Leaves (updating_qty c (other t) qty) a b db = after_bad_id a b _ db t _
cart_event-Leaves (updating_qty c (uuid v) (negsuc q)) a b db = remove-Leaves a b c v db
cart_event-Leaves (updating_qty c (uuid v) (pos q)) a b db = update_qty-Leaves a b c v q db
cart_event-Leaves (removing c (other t)) a b db = after_bad_id a b _ db t _
cart_event-Leaves (removing c (uuid v)) a b db = remove-Leaves a b c v db
