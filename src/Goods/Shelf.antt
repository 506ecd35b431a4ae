-- ===== src/Goods/Shelf.antt =====
-- The accounting while an order is written: what is taken from the shelf, and what each item of the
-- new order then counts (lockAndDecrementStock and the inserts of createOrder).
use cozy_backend.Base.{
  ℕ, ◌+◌, ◌≡◌, refl, ◌&&◌, Option, some, List, [], ◌∷◌, arith, ltb, ◌==◌, if◌then◌else◌, sum_by,
  All, Bool-cases, Option-cases, inl, inr,
}
use cozy_backend.Dbtx.{◌>>=◌}
use cozy_backend.Dbtx.Ensures.{
  Post, Ensures, Ensures-pure, Ensures-modify, Ensures-bind, Ensures-weaken,
}
use cozy_backend.Schema.Text.{Text}
use cozy_backend.Schema.Rows.{Order, OrderItem, OrderStatus, Actor, Db, Env}
use cozy_backend.Schema.Statements.{
  find_order, take_stock, insert_order, order_refused, insert_item, record_status_tx,
}
use cozy_backend.Orders.Input.{Quantities, qty_of}
use cozy_backend.Orders.Stock.{lock_and_decrement_one, lock_and_decrement_stock}
use cozy_backend.Orders.Create.{insert_items}
use cozy_backend.Goods.{held, reserved, goods, Owes}
use cozy_backend.Goods.Laws.{
  order_refused-find, insert_order-ItemsKnown, insert_order-OrdersKeyed, insert_order-reserved,
}

-- What taking `need` of variant `w` from point `p` means for variant `v` at `point`.
abbrev pub one_due : ℕ → ℕ → ℕ → ℕ → ℕ → ℕ
one_due v point p w need = if w == v && p == point then need else 0

lock_and_decrement_one-Post :
    (v point n d p w need : ℕ) (db : Db)
    → Owes v point n d db
    → Post
        (λ _ s. Owes v point n (d + one_due v point p w need) s)
        (lock_and_decrement_one p w need db)
unfolding lock_and_decrement_one ◌>>=◌ take_stock goods
lock_and_decrement_one-Post v point n d p w need db h = elim (Option-cases (db.stock w p)) [
  | inl missing ↦ rw missing tt
  | inr (q, e) ↦ elim (Bool-cases (ltb q need)) [
    | inl short ↦ rw e (rw short tt)
    | inr enough ↦ rw e (rw (enough, take_stock) (rw e (rw enough (h.0, ground arith))))
  ]
]

abbrev pub all_due : ℕ → ℕ → ℕ → Quantities → List ℕ → ℕ
all_due v point p m = sum_by (λ w. one_due v point p w (qty_of m w))

-- Taking the lines from the shelf leaves the goods short by what they ask for.
pub lock_and_decrement_stock-Owes :
    (v point n d p : ℕ) (m : Quantities) (vs : List ℕ)
    → Ensures
        (Owes v point n d)
        (lock_and_decrement_stock p m vs)
        (λ _. Owes v point n (d + all_due v point p m vs))
unfolding lock_and_decrement_stock
lock_and_decrement_stock-Owes v point n d p m [] =
    Ensures-pure _ tt (λ s h. (h.0, omega (arith, h.1)))
lock_and_decrement_stock-Owes v point n d p m (w ∷ ws) =
    Ensures-bind (λ _. Owes v point n (d + one_due v point p w (qty_of m w))) _ _ _
      (record { at = lock_and_decrement_one-Post v point n d p w (qty_of m w) })
      (λ _.
        Ensures-weaken _ _ _ (λ s h. h) (λ a s h. (h.0, omega (arith, h.1)))
          (lock_and_decrement_stock-Owes v point n (d + one_due v point p w (qty_of m w)) p m ws))

pub insert_order-Post :
    (v point n d : ℕ) (o : Order) (db : Db)
    → Owes v point n d db
    → Post (λ _ s. Owes v point n d s × (find_order o.id s.orders ≡ some o)) (insert_order o db)
unfolding insert_order ◌>>=◌ goods reserved
insert_order-Post v point n d o db h = elim (Bool-cases (order_refused o db.orders)) [
  | inl bad ↦ rw bad tt
  | inr good ↦
      let fresh = order_refused-find o db.orders good in
      rw good (
        (
          (
            insert_order-ItemsKnown o db.orders db.items h.0.0,
            insert_order-OrdersKeyed o db.orders fresh h.0.1,
          ),
          rw (insert_order-reserved v point o db.orders db.items fresh h.0.0) h.1,
        ),
        ground arith,
      )
]

-- What an item of the order `o` counts for a variant at a point.
abbrev pub counts : ℕ → ℕ → Order → OrderItem → ℕ
counts v point o it = if it.variant_id == v then held point (some o) it.quantity else 0

insert_item-Post :
    (v point n d : ℕ) (o : Order) (it : OrderItem) (db : Db)
    → it.order_id ≡ o.id
    → Owes v point n (counts v point o it + d) db × (find_order o.id db.orders ≡ some o)
    → Post (λ _ s. Owes v point n d s × (find_order o.id s.orders ≡ some o)) (insert_item it db)
unfolding insert_item ◌>>=◌ goods reserved
insert_item-Post v point n d o it db same h =
    let k : find_order it.order_id db.orders ≡ some o = rw same h.1 in
    rw k (elim (Bool-cases (it.quantity == 0)) [
      | inl bad ↦ rw bad tt
      | inr good ↦ rw good ((((rw k refl, h.0.0.0), h.0.0.1), rw k (omega (arith, h.0.1))), h.1)
    ])

pub insert_items-Owes :
    (v point n : ℕ) (o : Order) (items : List OrderItem)
    → All (λ it. it.order_id ≡ o.id) items
    → Ensures
        (λ s.
          Owes v point n (sum_by (counts v point o) items) s × (find_order o.id s.orders ≡ some o))
        (insert_items items)
        (λ _ s. Owes v point n 0 s)
unfolding insert_items
insert_items-Owes v point n o [] same = Ensures-pure _ tt (λ s h. h.0)
insert_items-Owes v point n o (it ∷ items) same =
    Ensures-bind _ _ _ _
      (record {
        at = λ s h. insert_item-Post v point n (sum_by (counts v point o) items) o it s same.0 h;
      })
      (λ _. insert_items-Owes v point n o items same.1)

-- The history is no part of the accounting.
pub record_status_tx-Owes :
    (v point n d : ℕ) (env : Env) (id : ℕ) (from : Option OrderStatus) (to : OrderStatus)
    (actor : Actor) (remark : Option Text)
    → Ensures
        (Owes v point n d)
        (record_status_tx env id from to actor remark)
        (λ _. Owes v point n d)
unfolding record_status_tx goods
record_status_tx-Owes v point n d env id from to actor remark = Ensures-modify _ _ (λ s h. h)
