-- ===== src/System/Conservation.antt =====
-- Whatever happens, in whatever order, no goods appear or vanish.
use cozy_backend.Base.{ℕ, ◌≡◌, List, arith}
use cozy_backend.Schema.Rows.{Db, Env}
use cozy_backend.Orders.Settings.{Settings}
use cozy_backend.Payments.Provider.{Provider}
use cozy_backend.Goods.{goods, IsWellFormed}
use cozy_backend.Goods.Changes.{goods_laws}
use cozy_backend.System.{Event, run}
use cozy_backend.System.Keeps.{run_keeps}

-- From tables whose keys hold, any sequence of events (orders placed, changed, cancelled and
-- expired, payment callbacks, failed requests) leaves the keys intact and, for every variant at
-- every point, the sum of the stock and of what the orders that are not cancelled hold unchanged.
pub run-goods :
    (st : Settings) (provider : Provider) (es : List (Env × Event)) (db : Db) (v point : ℕ)
    → IsWellFormed db
    → IsWellFormed (run st provider es db)
      × (goods v point (run st provider es db) ≡ goods v point db)
run-goods st provider es db v point h =
    let after =
      run_keeps (goods_laws v point (goods v point db)) st provider es db (h, omega arith) in
    (after.0, omega (arith, after.1))
