-- ===== src/Auth/Limiter.antt =====
-- windowLimiter (internal/auth/limiter.go): a budget of events per key, here a client's IP, in each
-- window of time. A limit that is not positive is 0, as is that of a nil limiter.
pub mod Exact
pub mod Rate
use cozy_backend.Base.{
  ℕ, ◌+◌, Bool, true, false, ◌||◌, Option, none, List, [], ◌∷◌, leb, ◌==◌, if◌then◌else◌,
}
use cozy_backend.Schema.Text.{Text}
use cozy_backend.Limits.{Window, Windows, set_window, Policy, current, add_one, spend}

pub record Limiter : Type 0 where
  pub limit : ℕ
  pub window : ℕ

-- `!now.Before(w.resetAt)`, and limiterSweepThreshold.
abbrev pub policy : Limiter → Policy
policy l = record { is_over = λ reset_at now. leb reset_at now; sweep_at = 10000; span = l.window }

abbrev pub is_empty : Text → Bool
is_empty [] = true
is_empty (_ ∷ _) = false

-- `l == nil || l.limit <= 0 || key == ""`
abbrev pub is_off : Limiter → Text → Bool
is_off l key = l.limit == 0 || is_empty key

-- `allow`
unfoldable pub allow : Limiter → ℕ → Text → Windows → Bool × Windows
unfolding current
allow l now key ws =
    if is_off l key then (true, ws) else spend l.limit key (current (policy l) now key ws)

-- `blocked`
unfoldable pub blocked : Limiter → ℕ → Text → Windows → Bool × Windows
unfolding current
blocked l now key ws =
    if is_off l key
    then (false, ws)
    else let found = current (policy l) now key ws in (leb l.limit found.0.count, found.1)

-- `hit`
unfoldable pub hit : Limiter → ℕ → Text → Windows → Windows
unfolding current
hit l now key ws =
    if is_off l key
    then ws
    else let found = current (policy l) now key ws in set_window key (add_one found.0) found.1

pub data Op : Type 0 where
  allowing blocking hitting : Op

-- A call, some seconds after the one before it.
pub record Call : Type 0 where
  pub gap : ℕ
  pub op : Op
  pub key : Text

-- What a call answers, `false` for a hit, and what it leaves.
abbrev pub call : Limiter → ℕ → Op → Text → Windows → Bool × Windows
call l now Op.allowing key ws = allow l now key ws
call l now Op.blocking key ws = blocked l now key ws
call l now Op.hitting key ws = (false, hit l now key ws)

-- The answers to a sequence of calls.
abbrev pub answers : Limiter → ℕ → Windows → List Call → List Bool
answers l now ws [] = []
answers l now ws (c ∷ cs) =
    let done = call l (now + c.gap) c.op c.key ws in done.0 ∷ answers l (now + c.gap) done.1 cs
