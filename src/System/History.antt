-- ===== src/System/History.antt =====
-- Whatever happens, in whatever order, the history of status changes stays an audit trail.
use cozy_backend.Base.{List}
use cozy_backend.Schema.Rows.{Db, Env}
use cozy_backend.Orders.Settings.{Settings}
use cozy_backend.Payments.Provider.{Provider}
use cozy_backend.Trail.{IsAudited}
use cozy_backend.Trail.Statements.{trail_laws}
use cozy_backend.System.{Event, run}
use cozy_backend.System.Keeps.{run_keeps}

-- From tables with a complete audit trail, any sequence of events leaves it complete: every row of
-- order_status_history starts at the status where the order's row before it ended, every change is
-- the placing of an order or one that the state machine allows, and the newest row of each order
-- says its present status.
pub run-IsAudited :
    (st : Settings) (provider : Provider) (es : List (Env × Event)) (db : Db)
    → IsAudited db
    → IsAudited (run st provider es db)
run-IsAudited st provider es db h = run_keeps trail_laws st provider es db h
