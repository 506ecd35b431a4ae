-- ===== src/Orders/Cover.antt =====
-- The point that packs an order, and the stock taken there (pickFulfillmentPoint,
-- pointCoversStock and lockAndDecrementStock in internal/orders/order.go).
use cozy_backend.Base.{
  ℕ, ◌-◌, ◌≤◌, ◌≡◌, refl, sym, ap, ◌∙◌, true, false, Option, none, some, List, [], ◌∷◌, arith, ltb,
  ◌==◌, any_row, All, if_both, Bool-cases, Option-cases, inl, inr,
}
use cozy_backend.Apperr.{Error, Result, ok, err, is_ok}
use cozy_backend.Dbtx.{or_raise, continue, ◌>>=◌}
use cozy_backend.Schema.Rows.{Point, Db}
use cozy_backend.Schema.Statements.{put_stock, take_stock}
use cozy_backend.Orders.Input.{Quantities, qty_of}
use cozy_backend.Orders.Stock.{
  point_covers_stock, first_cover, active_points, pick_fulfillment_point, lock_and_decrement_one,
  lock_and_decrement_stock, insufficient_stock_for_delivery,
}
use cozy_backend.Goods.Quantities.{count}

-- What the choice of a point promises, by its result.
abbrev Chooses : (ℕ → ℕ → Option ℕ) → Quantities → List ℕ → List Point → Option ℕ → Type 0
Chooses stock m vs ps none = All (λ p. point_covers_stock stock p.id m vs ≡ false) ps
Chooses stock m vs ps (some id) =
    (any_row (λ p. p.id == id) ps ≡ true) × (point_covers_stock stock id m vs ≡ true)

later_Chooses :
    (stock : ℕ → ℕ → Option ℕ) (m : Quantities) (vs : List ℕ) (p : Point) (ps : List Point)
    (found : Option ℕ)
    → point_covers_stock stock p.id m vs ≡ false
    → Chooses stock m vs ps found
    → Chooses stock m vs (p ∷ ps) found
later_Chooses stock m vs p ps none short h = (short, h)
later_Chooses stock m vs p ps (some id) short h = (ground (arith, h.0), h.1)

first_cover-Chooses :
    (stock : ℕ → ℕ → Option ℕ) (m : Quantities) (vs : List ℕ) (ps : List Point)
    → Chooses stock m vs ps (first_cover stock m vs ps)
unfolding first_cover
first_cover-Chooses stock m vs [] = tt
first_cover-Chooses stock m vs (p ∷ ps) =
    if_both (Chooses stock m vs (p ∷ ps)) (point_covers_stock stock p.id m vs)
      (λ covers. (ground arith, covers))
      (λ short.
        later_Chooses stock m vs p ps (first_cover stock m vs ps) short
          (first_cover-Chooses stock m vs ps))

-- What pickFulfillmentPoint promises: an active point that covers every line, or an error when
-- no active point does; the tables stay as they are.
abbrev pub Picks : Quantities → List ℕ → Db → Result ℕ × Db → Type 0
Picks m vs db (ok id, db') =
    (db' ≡ db)
    × (any_row (λ p. p.id == id) (active_points db) ≡ true)
    × (point_covers_stock db.stock id m vs ≡ true)
Picks m vs db (err e, db') =
    (db' ≡ db) × All (λ p. point_covers_stock db.stock p.id m vs ≡ false) (active_points db)

or_raise-Picks :
    (m : Quantities) (vs : List ℕ) (db : Db) (e : Error) (o : Option ℕ)
    → Chooses db.stock m vs (active_points db) o
    → Picks m vs db (or_raise e o db)
or_raise-Picks m vs db e none h = (refl, h)
or_raise-Picks m vs db e (some id) h = (refl, h.0, h.1)

-- pickFulfillmentPoint leaves the tables alone and returns an active point whose stock covers
-- every line; it fails only when no active point covers them all.
pub pick_fulfillment_point-Picks :
    (m : Quantities) (vs : List ℕ) (db : Db) → Picks m vs db (pick_fulfillment_point m vs db)
unfolding pick_fulfillment_point ◌>>=◌
pick_fulfillment_point-Picks m vs db =
    or_raise-Picks m vs db (insufficient_stock_for_delivery db.stock m (active_points db) vs)
      (first_cover db.stock m vs (active_points db))
      (first_cover-Chooses db.stock m vs (active_points db))

-- Setting the stock of a variant that is not asked for changes nothing.
covers-put :
    (db : Db) (v point q : ℕ) (m : Quantities) (vs : List ℕ)
    → count v vs ≡ 0
    → point_covers_stock (put_stock v point q db).stock point m vs
      ≡ point_covers_stock db.stock point m vs
unfolding point_covers_stock put_stock
covers-put db v point q m [] h = refl
covers-put db v point q m (w ∷ ws) h = ground (arith, covers-put db v point q m ws)

-- One line under its row lock: no row, too little, enough.
module _ (point v need : ℕ) (db : Db) where
  lock_one_missing :
      db.stock v point ≡ none → is_ok (lock_and_decrement_one point v need db).0 ≡ false
  unfolding lock_and_decrement_one ◌>>=◌
  lock_one_missing h = simp h

  lock_one_short :
      (q : ℕ)
      → db.stock v point ≡ some q
      → ltb q need ≡ true
      → is_ok (lock_and_decrement_one point v need db).0 ≡ false
  unfolding lock_and_decrement_one ◌>>=◌
  lock_one_short q h short = simp (h, short)

  lock_one_taken :
      (q : ℕ)
      → db.stock v point ≡ some q
      → ltb q need ≡ false
      → lock_and_decrement_one point v need db ≡ (ok tt, put_stock v point (q - need) db)
  unfolding lock_and_decrement_one take_stock ◌>>=◌
  lock_one_taken q h enough = simp (h, enough)

-- A first line that fails ends the loop.
bind-fails :
    {A B : Type 0} (r : Result A) (f : A → Db → Result B × Db) (db : Db)
    → is_ok r ≡ false
    → is_ok (continue r f db).0 ≡ false
bind-fails (ok a) f db h = cc
bind-fails (err e) f db h = refl

absent : (v : ℕ) (vs : List ℕ) → count v (v ∷ vs) ≤ 1 → count v vs ≡ 0
absent v vs h = ground arith

rest_once : (v w : ℕ) (vs : List ℕ) → count w (v ∷ vs) ≤ 1 → count w vs ≤ 1
rest_once v w vs h = ground arith

covers_taken :
    (stock : ℕ → ℕ → Option ℕ) (v point q : ℕ) (m : Quantities) (vs : List ℕ)
    → stock v point ≡ some q
    → ltb q (qty_of m v) ≡ false
    → point_covers_stock stock point m (v ∷ vs) ≡ point_covers_stock stock point m vs
unfolding point_covers_stock
covers_taken stock v point q m vs e enough = ground (arith, e, enough)

-- For variants that are listed once each, lockAndDecrementStock succeeds exactly when the point's
-- stock covers every line.
pub lock_and_decrement_stock-covers :
    (point : ℕ) (m : Quantities) (vs : List ℕ) (db : Db)
    → ((v : ℕ) → count v vs ≤ 1)
    → is_ok (lock_and_decrement_stock point m vs db).0 ≡ point_covers_stock db.stock point m vs
unfolding lock_and_decrement_stock point_covers_stock ◌>>=◌
lock_and_decrement_stock-covers point m [] db h = refl
lock_and_decrement_stock-covers point m (v ∷ vs) db h = elim (Option-cases (db.stock v point)) [
  | inl e ↦
      bind-fails (lock_and_decrement_one point v (qty_of m v) db).0 _ _
        (lock_one_missing point v (qty_of m v) db e)
      ∙ ground (arith, e)
  | inr (q, e) ↦ elim (Bool-cases (ltb q (qty_of m v))) [
    | inl short ↦
        bind-fails (lock_and_decrement_one point v (qty_of m v) db).0 _ _
          (lock_one_short point v (qty_of m v) db q e short)
        ∙ ground (arith, e, short)
    | inr enough ↦
        ap
          (λ (p : Result Unit × Db).
            is_ok (continue p.0 (λ _. lock_and_decrement_stock point m vs) p.1).0)
          (lock_one_taken point v (qty_of m v) db q e enough)
        ∙ lock_and_decrement_stock-covers point m vs (put_stock v point (q - qty_of m v) db)
            (λ w. rest_once v w vs (h w))
        ∙ covers-put db v point (q - qty_of m v) m vs (absent v vs (h v))
        ∙ sym (covers_taken db.stock v point q m vs e enough)
  ]
]
