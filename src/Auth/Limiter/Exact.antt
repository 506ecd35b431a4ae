-- ===== src/Auth/Limiter/Exact.antt =====
-- The limiter against its specification, which forgets no window (internal/auth/limiter.go).
use cozy_backend.Base.{
  ℕ, ◌+◌, ◌≡◌, refl, ap, Bool, true, false, none, List, [], ◌∷◌, arith, leb, if◌then◌else◌, if_both,
}
use cozy_backend.Schema.Text.{Text}
use cozy_backend.Limits.{Window, Windows, add_one}
use cozy_backend.Limits.Book.{
  take_one, spend-Agrees, Book, put, window_now, Agrees, reset-Agrees, current-Agrees, wait-Agrees,
}
use cozy_backend.Auth.Limiter.{
  Limiter, policy, is_off, allow, blocked, hit, Op, Call, call, answers,
}

-- What one call does to the window of its key.
abbrev pub turn : Limiter → Op → Window → Bool × Window
turn l Op.allowing w = take_one l.limit w
turn l Op.blocking w = (leb l.limit w.count, w)
turn l Op.hitting w = (false, add_one w)

-- A limiter that is off lets everything through.
abbrev pub answer_off : Op → Bool
answer_off Op.allowing = true
answer_off Op.blocking = false
answer_off Op.hitting = false

abbrev pub entry : Limiter → ℕ → Op → Text → Book → Book
entry l now op key b = put key (turn l op (window_now (policy l) now (b key))).1 b

abbrev pub call_exact : Limiter → ℕ → Op → Text → Book → Bool × Book
call_exact l now op key b =
    if is_off l key
    then (answer_off op, b)
    else ((turn l op (window_now (policy l) now (b key))).0, entry l now op key b)

abbrev pub answers_exact : Limiter → ℕ → Book → List Call → List Bool
answers_exact l now b [] = []
answers_exact l now b (c ∷ cs) =
    let done = call_exact l (now + c.gap) c.op c.key b in
    done.0 ∷ answers_exact l (now + c.gap) done.1 cs

abbrev Same : Limiter → ℕ → Bool × Windows → Bool × Book → Type 0
Same l now r s = (r.0 ≡ s.0) × Agrees (policy l) now r.1 s.1

module _ (l : Limiter) (now : ℕ) (key : Text) (b : Book) where
  turn-Same :
      (op : Op) (ws : Windows)
      → is_off l key ≡ false
      → Agrees (policy l) now ws b
      → Same l now
          (call l now op key ws)
          ((turn l op (window_now (policy l) now (b key))).0, entry l now op key b)
  unfolding allow blocked hit
  turn-Same Op.allowing ws works h =
      let c = current-Agrees (policy l) now key ws b h in
      rw works (spend-Agrees (policy l) now l.limit key b _ _ c.0 c.1)
  turn-Same Op.blocking ws works h =
      let c = current-Agrees (policy l) now key ws b h in
      rw works (ap (λ w. leb l.limit w.count) c.0, c.1)
  turn-Same Op.hitting ws works h =
      let c = current-Agrees (policy l) now key ws b h in
      rw (works, c.0) (refl, reset-Agrees (policy l) now key _ _ _ b c.1)

  off-Same :
      (op : Op) (ws : Windows)
      → is_off l key ≡ true
      → Agrees (policy l) now ws b
      → Same l now (call l now op key ws) (answer_off op, b)
  unfolding allow blocked hit
  off-Same Op.allowing ws off h = rw off (refl, h)
  off-Same Op.blocking ws off h = rw off (refl, h)
  off-Same Op.hitting ws off h = rw off (refl, h)

  call-Same :
      (op : Op) (ws : Windows)
      → Agrees (policy l) now ws b
      → Same l now (call l now op key ws) (call_exact l now op key b)
  call-Same op ws h =
      if_both (Same l now (call l now op key ws)) (is_off l key) (λ off. off-Same op ws off h)
        (λ works. turn-Same op ws works h)

pub answers-from :
    (l : Limiter) (cs : List Call) (now : ℕ) (ws : Windows) (b : Book)
    → Agrees (policy l) now ws b
    → answers l now ws cs ≡ answers_exact l now b cs
answers-from l [] now ws b h = refl
answers-from l (c ∷ cs) now ws b h =
    let waited = wait-Agrees (policy l) now c.gap ws b (λ r over. ground (arith, over)) h in
    let done = call-Same l (now + c.gap) c.key b c.op ws waited in
    let rest = answers-from l cs (now + c.gap) _ _ done.1 in rw (done.0, rest) refl

-- For any limit, any window and any calls, the limiter that starts empty answers as one that keeps
-- the window of every key for ever: the sweep of the map never changes an answer.
pub answers-exact :
    (l : Limiter) (now : ℕ) (cs : List Call)
    → answers l now [] cs ≡ answers_exact l now (λ _. none) cs
answers-exact l now cs =
    answers-from l cs now [] (λ _. none) (record { keyed = tt; same = λ k. refl })
