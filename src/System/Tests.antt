-- ===== src/System/Tests.antt =====
-- A day of the small shop.
use cozy_backend.Base.{◌≡◌, List, [], ◌∷◌}
use cozy_backend.Schema.Text.{codes, uuid}
use cozy_backend.Schema.Rows.{Env}
use cozy_backend.Orders.Settings.{default_settings}
use cozy_backend.Goods.{goods, IsWellFormed}
use cozy_backend.System.{Event, place, place_online, cancel, callback, expire_batch, run}
use cozy_backend.System.Shop.{shop, at_time, three_pieces, gateway}
use cozy_backend.System.Conservation.{run-goods}
use cozy_backend.System.History.{run-IsAudited}
use cozy_backend.Trail.{IsAudited}

abbrev a_day : List (Env × Event)
a_day =
    (at_time 100 10, place_online three_pieces)
    ∷ (at_time 110 11, place three_pieces)
    ∷ (at_time 120 12, cancel 7 (uuid 10))
    ∷ (at_time 130 13, callback (codes "mock") [] (10 ∷ []))
    ∷ (at_time 5000 14, expire_batch)
    ∷ []

run-goods_example :
    IsWellFormed (run default_settings gateway a_day shop)
    × (goods 1 2 (run default_settings gateway a_day shop) ≡ goods 1 2 shop)
run-goods_example = run-goods default_settings gateway a_day shop 1 2 (tt, tt)

run-IsAudited_example : IsAudited (run default_settings gateway a_day shop)
run-IsAudited_example =
    run-IsAudited default_settings gateway a_day shop
      (record { trail = tt; current = tt; known = tt; keyed = tt })
