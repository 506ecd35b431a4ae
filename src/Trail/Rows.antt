-- ===== src/Trail/Rows.antt =====
-- The audit trail under changes of the two tables.
use cozy_backend.Base.{
  ℕ, ◌≡◌, refl, sym, ap, ◌∙◌, true, false, none, some, List, [], ◌∷◌, arith, ◌==◌, is_some,
  update_rows, All, All-map, All-both, Bool-cases, inl, inr, ==_iff, All-update_rows, first_row-All,
}
use cozy_backend.Schema.Rows.{Order, StatusChange, is_placed}
use cozy_backend.Schema.Statements.{find_order}
use cozy_backend.Orders.Status.{valid_status_transition}
use cozy_backend.Goods.Laws.{
  find_order-update, fresh_id, insert_order-OrdersKeyed, update-OrdersKeyed,
}
use cozy_backend.Trail.{latest, Audit}

-- An order that no row of the history is about.
latest_unknown :
    (orders : List Order) (id : ℕ) (history : List StatusChange)
    → find_order id orders ≡ none
    → All (λ h. is_some (find_order h.order_id orders) ≡ true) history
    → latest id history ≡ none
latest_unknown orders id [] fresh known = refl
latest_unknown orders id (h ∷ hs) fresh known = elim (Bool-cases (h.order_id == id)) [
  | inl mine ↦
      let e : h.order_id ≡ id = (==_iff _ _).0 mine in
      let k : is_some (find_order id orders) ≡ true = rw (← e) known.0 in
      let n : is_some (find_order id orders) ≡ false = rw fresh refl in absurd (cc)
  | inr other ↦ rw other (latest_unknown orders id hs fresh known.1)
]

known-insert :
    (row : Order) (orders : List Order) (history : List StatusChange)
    → All (λ h. is_some (find_order h.order_id orders) ≡ true) history
    → All (λ h. is_some (find_order h.order_id (row ∷ orders)) ≡ true) history
known-insert row orders history h = All-map (λ x k. ground (arith, k)) history h

known-update :
    (id : ℕ) (f : Order → Order) (orders : List Order) (history : List StatusChange)
    → ((o : Order) → (f o).id ≡ o.id)
    → All (λ h. is_some (find_order h.order_id orders) ≡ true) history
    → All
        (λ h. is_some (find_order h.order_id (update_rows (λ o. o.id == id) f orders)) ≡ true)
        history
known-update id f orders history keep h =
    All-map (λ x k. ground (arith, k, find_order-update id x.order_id f orders keep)) history h

-- A new order with its first row.
pub insert-Audit :
    (row : Order) (orders : List Order) (h : StatusChange) (history : List StatusChange)
    → find_order row.id orders ≡ none
    → h.order_id ≡ row.id
    → h.from_status ≡ none
    → h.to_status ≡ row.status
    → is_placed row.status ≡ true
    → Audit orders history
    → Audit (row ∷ orders) (h ∷ history)
insert-Audit row orders h history fresh id from to placed audit = record {
  trail = (
    ap (λ i. latest i history) id
        ∙ latest_unknown orders row.id history fresh audit.known
        ∙ sym from,
    rw (from, to) placed,
    audit.trail,
  );
  current = (
    ground (arith, id, to),
    All-map (λ o k. rw (id, fresh_id row orders o.id fresh (rw k.0 refl)) k.1) orders
        (All-both _ _ orders audit.keyed audit.current),
  );
  known =
      (rw (id, (==_iff row.id row.id).1 refl) refl, known-insert row orders history audit.known);
  keyed = insert_order-OrdersKeyed row orders fresh audit.keyed;
}

-- An update that keeps ids and statuses.
pub update-Audit :
    (id : ℕ) (f : Order → Order) (orders : List Order) (history : List StatusChange)
    → ((o : Order) → (f o).id ≡ o.id)
    → ((o : Order) → (f o).status ≡ o.status)
    → Audit orders history
    → Audit (update_rows (λ o. o.id == id) f orders) history
update-Audit id f orders history same_id same_status audit = record {
  trail = audit.trail;
  current =
      All-update_rows _ _ (λ o. o.id == id) f orders
        (λ o k e. ap (λ i. latest i history) (same_id o) ∙ k ∙ ap some (sym (same_status o)))
        (λ o k e. k) audit.current;
  known = known-update id f orders history same_id audit.known;
  keyed = update-OrdersKeyed id f orders same_id audit.keyed;
}

latest-before :
    (o : Order) (orders : List Order) (history : List StatusChange)
    → All (λ x. find_order x.id orders ≡ some x) orders
    → All (λ x. latest x.id history ≡ some x.status) orders
    → find_order o.id orders ≡ some o
    → latest o.id history ≡ some o.status
latest-before o orders history keyed current found =
    (first_row-All (λ x. latest x.id history ≡ some x.status) (λ x. x.id == o.id) orders o current
      found).0

-- An update of one order's status, with its row.
pub move-Audit :
    (o : Order) (f : Order → Order) (orders : List Order) (h : StatusChange)
    (history : List StatusChange)
    → find_order o.id orders ≡ some o
    → ((x : Order) → ((f x).id ≡ x.id) × ((f x).status ≡ h.to_status))
    → h.order_id ≡ o.id
    → h.from_status ≡ some o.status
    → valid_status_transition o.status h.to_status ≡ true
    → Audit orders history
    → Audit (update_rows (λ x. x.id == o.id) f orders) (h ∷ history)
move-Audit o f orders h history found same id from valid audit = record {
  trail = (
    ap (λ i. latest i history) id
        ∙ latest-before o orders history audit.keyed audit.current found
        ∙ sym from,
    rw from valid,
    audit.trail,
  );
  current =
      All-update_rows _ _ (λ x. x.id == o.id) f orders (λ x k e. ground (arith, same x, e, id))
        (λ x k e. ground (arith, e, id, k)) audit.current;
  known = (
    ground (arith, id, found, find_order-update o.id h.order_id f orders (λ x. (same x).0)),
    known-update o.id f orders history (λ x. (same x).0) audit.known,
  );
  keyed = update-OrdersKeyed o.id f orders (λ x. (same x).0) audit.keyed;
}
