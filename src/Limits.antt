-- ===== src/Limits.antt =====
-- Counters per key in a fixed window of time, as internal/auth/limiter.go and
-- internal/staff/ratelimit.go keep them in a Go map under a mutex: one call is one step. Times are
-- seconds of a clock that never runs back.
pub mod Map
pub mod Book
use cozy_backend.Base.{
  ℕ, suc, ◌+◌, Bool, true, false, Option, none, some, List, [], ◌∷◌, leb, if◌then◌else◌, length,
}
use cozy_backend.Schema.Text.{Text, same_text}

-- `limiterWindow` and `loginWindow`
pub record Window : Type 0 where
  pub count : ℕ
  pub reset_at : ℕ

-- The map, an entry for each key.
abbrev pub Windows : Type 0
Windows = List (Text × Window)

-- `windows[key]`
abbrev pub find_window : Text → Windows → Option Window
find_window key [] = none
find_window key ((k, w) ∷ ws) =
    let rest = find_window key ws in if same_text k key then some w else rest

-- `windows[key] = w`
abbrev pub set_window : Text → Window → Windows → Windows
set_window key w [] = (key, w) ∷ []
set_window key w ((k, x) ∷ ws) =
    let rest = (k, x) ∷ set_window key w ws in if same_text k key then (k, w) ∷ ws else rest

-- How the two limiters differ: when a window that resets at a time is over, the size of the map from
-- which a new window first sweeps it, and the length of a window.
pub record Policy : Type 0 where
  pub is_over : ℕ → ℕ → Bool
  pub sweep_at : ℕ
  pub span : ℕ

-- The window of a key, unless it is over.
abbrev pub open_window : Policy → ℕ → Option Window → Option Window
open_window p now none = none
open_window p now (some w) = if p.is_over w.reset_at now then none else some w

abbrev pub new_window : Policy → ℕ → Window
new_window p now = record { count = 0; reset_at = now + p.span }

-- `sweepLocked`: the windows that are over leave the map.
abbrev pub drop_over : Policy → ℕ → Windows → Windows
drop_over p now [] = []
drop_over p now ((k, w) ∷ ws) =
    let rest = drop_over p now ws in if p.is_over w.reset_at now then rest else (k, w) ∷ rest

abbrev pub sweep : Policy → ℕ → Windows → Windows
sweep p now ws = if leb p.sweep_at (length ws) then drop_over p now ws else ws

-- What `current` does with the window that it looked up.
abbrev pub renew : Policy → ℕ → Text → Windows → Option Window → Window × Windows
renew p now key ws none = (new_window p now, set_window key (new_window p now) (sweep p now ws))
renew p now key ws (some w) = (w, ws)

-- `current`: the window of a key, a new one where there is none or it is over.
unfoldable pub current : Policy → ℕ → Text → Windows → Window × Windows
current p now key ws = renew p now key ws (open_window p now (find_window key ws))

-- `w.count++`
abbrev pub add_one : Window → Window
add_one w = record w { count = suc w.count }

-- The end of `allow`: one event more, if the budget has room.
abbrev pub spend : ℕ → Text → Window × Windows → Bool × Windows
spend limit key (w, ws) =
    if leb limit w.count then (false, ws) else (true, set_window key (add_one w) ws)
