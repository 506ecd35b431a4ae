-- ===== src/Orders/Cart/Lines.antt =====
-- The lines of carts under any operations (CartRepo in internal/orders/cart.go).
use cozy_backend.Base.{
  ℕ, ◌≤◌, ◌≡◌, refl, Bool, not, ◌&&◌, List, [], ◌∷◌, arith, ltb, ◌==◌, if◌then◌else◌, where_rows,
  count_rows, count_rows-update, All, All-update_rows, if_both,
}
use cozy_backend.Apperr.{Result, ok, err, passed, invalid_qty, qty_too_large}
use cozy_backend.Dbtx.{Tx, lift, ◌>>=◌}
use cozy_backend.Dbtx.Always.{
  Always, gets-Always, raise_if-Always, or_raise-Always, bind-Always, if-Always,
}
use cozy_backend.Schema.Text.{IdText}
use cozy_backend.Schema.Rows.{CartItem, Db}
use cozy_backend.Orders.Settings.{max_cart_qty}
use cozy_backend.Orders.Input.{ℤ, pos, negsuc}
use cozy_backend.Orders.Cart.{
  validate_cart_variant_id, validate_cart_qty, is_line, upsert_line, add, remove, set_line,
  is_removal, update_qty, CartEvent, adding, updating_qty, removing, cart_event, run_cart,
}

where_rows-All {ℓ} :
    {A : Type 0} (P : A → Type ℓ) (test : A → Bool) (xs : List A)
    → All P xs
    → All P (where_rows test xs)
where_rows-All P test [] h = tt
where_rows-All P test (x ∷ xs) h =
    if_both (All P) (test x) (λ _. (h.0, where_rows-All P test xs h.1))
      λ _. where_rows-All P test xs h.1

count_rows-where :
    {A : Type 0} (p test : A → Bool) (xs : List A)
    → count_rows p (where_rows test xs) ≤ count_rows p xs
count_rows-where p test [] = omega arith
count_rows-where p test (x ∷ xs) = ground (arith, count_rows-where p test xs)

-- Between one piece and the cap.
abbrev pub InRange : CartItem → Type 0
InRange it = (1 ≤ it.qty) × (it.qty ≤ max_cart_qty)

-- Every line is in range, and each customer has one line at most for a variant.
abbrev pub IsWithin : Db → Type 0
IsWithin db = All InRange db.cart × ((c v : ℕ) → count_rows (is_line c v) db.cart ≤ 1)

upsert-InRange :
    (c v n : ℕ) (its : List CartItem)
    → (1 ≤ n) × (n ≤ max_cart_qty)
    → All InRange its
    → All InRange (upsert_line c v n its)
unfolding upsert_line
upsert-InRange c v n [] hn h = (hn, tt)
upsert-InRange c v n (it ∷ its) hn h =
    if_both (All InRange) (is_line c v it)
      (λ _. ((ground (arith, hn, h.0), ground (arith, hn, h.0)), h.1))
      λ _. (h.0, upsert-InRange c v n its hn h.1)

count_rows-upsert :
    (a b c v n : ℕ) (its : List CartItem)
    → count_rows (is_line a b) (upsert_line c v n its) ≡ (
        if (c == a && v == b) && count_rows (is_line a b) its == 0
        then 1
        else count_rows (is_line a b) its)
unfolding upsert_line
count_rows-upsert a b c v n [] = ground arith
count_rows-upsert a b c v n (it ∷ its) = ground (arith, count_rows-upsert a b c v n its)

-- The rest of a block after a check runs with what the check let through.
lift_bind-Always :
    {S A B : Type 0} (P : S → Type 0) (r : Result A) (k : A → Tx S B)
    → ((a : A) → r ≡ ok a → Always P (k a))
    → Always P (lift r >>= k)
unfolding ◌>>=◌
lift_bind-Always P (ok a) k h = record { at = (h a refl).at }
lift_bind-Always P (err e) k h = record { at = λ s p. p }

pub validate_cart_qty-range :
    (q : ℤ) (n : ℕ) → validate_cart_qty q ≡ ok n → (1 ≤ n) × (n ≤ max_cart_qty)
unfolding validate_cart_qty
validate_cart_qty-range (negsuc m) n h = cc
validate_cart_qty-range (pos q) n h =
    let over = passed (q == 0) invalid_qty _ n h in
    let fits = passed (ltb max_cart_qty q) qty_too_large _ n over.1 in
    let same : q ≡ n = cc in
    (ground (arith, same, over.0, fits.0), ground (arith, same, over.0, fits.0))

add-Always : (c : ℕ) (id : IdText) (qty : ℤ) → Always IsWithin (add c id qty)
unfolding add
add-Always c id qty = lift_bind-Always IsWithin (validate_cart_variant_id id) _ λ v _.
    lift_bind-Always IsWithin (validate_cart_qty qty) _ λ n e.
      bind-Always IsWithin _ _ (gets-Always IsWithin _) λ found.
        bind-Always IsWithin _ _ (or_raise-Always IsWithin _ found) λ active.
          bind-Always IsWithin _ _ (raise_if-Always IsWithin _ _) λ _. record {
            at = λ db h. (
              upsert-InRange c v n db.cart (validate_cart_qty-range qty n e) h.0,
              λ a b. ground (arith, count_rows-upsert a b c v n db.cart, h.1 a b),
            );
          }

remove-Always : (c : ℕ) (id : IdText) → Always IsWithin (remove c id)
unfolding remove
remove-Always c id = lift_bind-Always IsWithin (validate_cart_variant_id id) _ λ v _. record {
  at = λ db h. (
    where_rows-All InRange _ db.cart h.0,
    λ a b.
        omega (arith, count_rows-where (is_line a b) (λ it. not (is_line c v it)) db.cart, h.1 a b),
  );
}

set_line-Always : (c v n : ℕ) → (1 ≤ n) × (n ≤ max_cart_qty) → Always IsWithin (set_line c v n)
unfolding set_line
set_line-Always c v n hn = bind-Always IsWithin _ _ (gets-Always IsWithin _) λ found.
    bind-Always IsWithin _ _
      (record {
        at = λ db h. (
          All-update_rows InRange InRange (is_line c v) (λ it. record it { qty = n }) db.cart
              (λ _ _ _. hn) (λ _ k _. k) h.0,
          λ a b. omega (
            arith,
            count_rows-update (is_line a b) (is_line c v) (λ it. record it { qty = n }) db.cart
                (λ _. refl),
            h.1 a b,
          ),
        );
      })
      λ _. raise_if-Always IsWithin _ _

update_qty-Always : (c : ℕ) (id : IdText) (qty : ℤ) → Always IsWithin (update_qty c id qty)
unfolding update_qty
update_qty-Always c id qty = lift_bind-Always IsWithin (validate_cart_variant_id id) _ λ v _.
    if-Always IsWithin (is_removal qty) _ _ (remove-Always c id) (
      lift_bind-Always IsWithin (validate_cart_qty qty) _
        λ n e. set_line-Always c v n (validate_cart_qty-range qty n e))

cart_event-Always : (e : CartEvent) → Always IsWithin (cart_event e)
unfolding cart_event
cart_event-Always (adding c id qty) = add-Always c id qty
cart_event-Always (updating_qty c id qty) = update_qty-Always c id qty
cart_event-Always (removing c id) = remove-Always c id

-- After any sequence of additions, quantity changes and removals, refused ones included, from carts
-- where every line holds between 1 and 20 pieces and each customer has one line at most for a
-- variant, the carts are so again.
pub run_cart-IsWithin : (es : List CartEvent) (db : Db) → IsWithin db → IsWithin (run_cart es db)
unfolding run_cart
run_cart-IsWithin [] db h = h
run_cart-IsWithin (e ∷ es) db h =
    run_cart-IsWithin es (cart_event e db).1 ((cart_event-Always e).at db h)
