-- ===== src/Goods/Laws.antt =====
-- The accounting under the single statements on `orders`, `order_items` and `stock`.
use cozy_backend.Base.{
  All-always, All-update_rows, ℕ, ◌≡◌, refl, Bool, true, false, ◌||◌, Option, none, some, List, [],
  ◌∷◌, arith, ◌==◌, if◌then◌else◌, is_some, sum_by, any_row, update_rows, All, All-map, inl, inr,
  Bool-cases, ==_iff,
}
use cozy_backend.Schema.Rows.{Order, OrderItem, is_cancelled}
use cozy_backend.Schema.Text.{same_text}
use cozy_backend.Schema.Statements.{clashes, find_order, order_refused}
use cozy_backend.Goods.{held, item_held}

-- An update by id, seen through a lookup.
abbrev pub updated : ℕ → ℕ → (Order → Order) → Option Order → Option Order
updated id j f none = none
updated id j f (some o) = if j == id then some (f o) else some o

pub find_order-update :
    (id j : ℕ) (f : Order → Order) (orders : List Order)
    → ((o : Order) → (f o).id ≡ o.id)
    → find_order j (update_rows (λ o. o.id == id) f orders) ≡ updated id j f (find_order j orders)
find_order-update id j f [] keep = refl
find_order-update id j f (o ∷ os) keep = ground (arith, keep o, find_order-update id j f os keep)

sum_by-cong :
    (f g : OrderItem → ℕ) (items : List OrderItem)
    → All (λ it. f it ≡ g it) items
    → sum_by f items ≡ sum_by g items
sum_by-cong f g [] h = refl
sum_by-cong f g (x ∷ xs) h = omega (arith, h.0, sum_by-cong f g xs h.1)

-- A change of `orders` that keeps what each order holds at the point keeps the sum.
pub reserved-keeps :
    (v point : ℕ) (orders orders' : List Order) (items : List OrderItem)
    → All
        (λ it.
          (q : ℕ)
          → held point (find_order it.order_id orders') q
            ≡ held point (find_order it.order_id orders) q)
        items
    → sum_by (item_held orders' v point) items ≡ sum_by (item_held orders v point) items
reserved-keeps v point orders orders' items h =
    sum_by-cong _ _ items (All-map (λ it e. ground (arith, e it.quantity)) items h)

-- A row that a fresh insert accepts has an id that no order had.
any_row-find :
    (row : Order) (test : Order → Bool) (orders : List Order)
    → any_row (λ o. o.id == row.id || test o) orders ≡ false
    → find_order row.id orders ≡ none
any_row-find row test [] h = refl
any_row-find row test (o ∷ os) h = ground (arith, any_row-find row test os)

pub order_refused-find :
    (row : Order) (orders : List Order)
    → order_refused row orders ≡ false
    → find_order row.id orders ≡ none
unfolding order_refused
order_refused-find row orders h =
    any_row-find row (λ o. same_text o.order_number row.order_number || clashes row o) orders
      (ground arith)

-- A fresh id is that of no order.
pub fresh_id :
    (row : Order) (orders : List Order) (id : ℕ)
    → find_order row.id orders ≡ none
    → is_some (find_order id orders) ≡ true
    → (row.id == id) ≡ false
fresh_id row orders id fresh known = elim (Bool-cases (row.id == id)) [
  | inr ne ↦ ne
  | inl same ↦
      let e : row.id ≡ id = (==_iff _ _).0 same in
      let k : is_some (find_order row.id orders) ≡ true = rw e known in cc
]

pub insert_order-ItemsKnown :
    (row : Order) (orders : List Order) (items : List OrderItem)
    → All (λ it. is_some (find_order it.order_id orders) ≡ true) items
    → All (λ it. is_some (find_order it.order_id (row ∷ orders)) ≡ true) items
insert_order-ItemsKnown row orders items h = All-map (λ it k. ground (arith, k)) items h

pub insert_order-reserved :
    (v point : ℕ) (row : Order) (orders : List Order) (items : List OrderItem)
    → find_order row.id orders ≡ none
    → All (λ it. is_some (find_order it.order_id orders) ≡ true) items
    → sum_by (item_held (row ∷ orders) v point) items ≡ sum_by (item_held orders v point) items
insert_order-reserved v point row orders items fresh known =
    reserved-keeps v point orders (row ∷ orders) items
      (All-map (λ it k q. rw (fresh_id row orders it.order_id fresh k)) items known)

pub update-ItemsKnown :
    (id : ℕ) (f : Order → Order) (orders : List Order) (items : List OrderItem)
    → ((o : Order) → (f o).id ≡ o.id)
    → All (λ it. is_some (find_order it.order_id orders) ≡ true) items
    → All
        (λ it. is_some (find_order it.order_id (update_rows (λ o. o.id == id) f orders)) ≡ true)
        items
update-ItemsKnown id f orders items keep h =
    All-map (λ it k. ground (arith, k, find_order-update id it.order_id f orders keep)) items h

held-updated :
    (point id j q : ℕ) (f : Order → Order) (o : Option Order)
    → ((o : Order) → ((f o).status ≡ o.status) × ((f o).point_id ≡ o.point_id))
    → held point (updated id j f o) q ≡ held point o q
held-updated point id j q f none same = refl
held-updated point id j q f (some o) same = ground (arith, same o)

-- An update that keeps status and point of the order changes nothing.
pub update-reserved :
    (v point id : ℕ) (f : Order → Order) (orders : List Order) (items : List OrderItem)
    → ((o : Order) → (f o).id ≡ o.id)
    → ((o : Order) → ((f o).status ≡ o.status) × ((f o).point_id ≡ o.point_id))
    → sum_by (item_held (update_rows (λ o. o.id == id) f orders) v point) items
      ≡ sum_by (item_held orders v point) items
update-reserved v point id f orders items keep same =
    reserved-keeps v point orders (update_rows (λ o. o.id == id) f orders) items (
      All-always _ items (λ it q.
        rw (find_order-update id it.order_id f orders keep)
          (held-updated point id it.order_id q f (find_order it.order_id orders) same)))

-- The primary key under an insert and an update.
pub insert_order-OrdersKeyed :
    (row : Order) (orders : List Order)
    → find_order row.id orders ≡ none
    → All (λ o. find_order o.id orders ≡ some o) orders
    → All (λ o. find_order o.id (row ∷ orders) ≡ some o) (row ∷ orders)
insert_order-OrdersKeyed row orders fresh keyed = (
  rw ((==_iff row.id row.id).1 refl),
  All-map (λ o k. rw (fresh_id row orders o.id fresh (rw k)) k) orders keyed,
)

pub update-OrdersKeyed :
    (id : ℕ) (f : Order → Order) (orders : List Order)
    → ((o : Order) → (f o).id ≡ o.id)
    → All (λ o. find_order o.id orders ≡ some o) orders
    → All
        (λ o. find_order o.id (update_rows (λ o. o.id == id) f orders) ≡ some o)
        (update_rows (λ o. o.id == id) f orders)
update-OrdersKeyed id f orders keep keyed =
    All-update_rows _ _ (λ o. o.id == id) f orders
      (λ o k e. ground (
        arith,
        keep o,
        e,
        k,
        find_order-update id (f o).id f orders keep,
        find_order-update id o.id f orders keep,
      ))
      (λ o k e. ground (arith, e, k, find_order-update id o.id f orders keep)) keyed

held-found :
    (point id j q : ℕ) (f : Order → Order) (o : Order) (x : Option Order)
    → ((j == id) ≡ true → x ≡ some o)
    → is_cancelled (f o).status ≡ is_cancelled o.status
    → (f o).point_id ≡ o.point_id
    → held point (updated id j f x) q ≡ held point x q
held-found point id j q f o none own s p = refl
held-found point id j q f o (some r) own s p = elim (Bool-cases (j == id)) [
  | inr other ↦ rw other
  | inl mine ↦
      let found : some r ≡ some o = own mine in
      let same : r ≡ o = cc in rw (mine, same) (ground arith)
]

-- A lookup by an equal number.
pub find_order-same :
    (id j : ℕ) (orders : List Order) (o : Order)
    → find_order id orders ≡ some o
    → (j == id) ≡ true
    → find_order j orders ≡ some o
find_order-same id j orders o found mine = let e : j ≡ id = (==_iff _ _).0 mine in rw e found

-- An update of a known order that neither cancels it nor moves it changes nothing.
pub update_found-reserved :
    (v point : ℕ) (o : Order) (f : Order → Order) (orders : List Order) (items : List OrderItem)
    → ((r : Order) → (f r).id ≡ r.id)
    → find_order o.id orders ≡ some o
    → is_cancelled (f o).status ≡ is_cancelled o.status
    → (f o).point_id ≡ o.point_id
    → sum_by (item_held (update_rows (λ r. r.id == o.id) f orders) v point) items
      ≡ sum_by (item_held orders v point) items
update_found-reserved v point o f orders items keep found s p =
    reserved-keeps v point orders (update_rows (λ r. r.id == o.id) f orders) items (
      All-always _ items (λ it q. rw (find_order-update o.id it.order_id f orders keep) (
        held-found point o.id it.order_id q f o (find_order it.order_id orders)
          (find_order-same o.id it.order_id orders o found) s p)))
