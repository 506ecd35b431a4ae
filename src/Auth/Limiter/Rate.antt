-- ===== src/Auth/Limiter/Rate.antt =====
-- How much the limiter lets through in any stretch of time (internal/auth/limiter.go).
use cozy_backend.Base.{
  ℕ, ◌+◌, ◌-◌, ◌*◌, ◌≤◌, ◌<◌, ◌≡◌, refl, ap, ◌∙◌, Bool, true, false, Option, none, some, List, [],
  ◌∷◌, arith, leb, if◌then◌else◌, if_both, Bool-cases, Option-cases, inl, inr,
}
use cozy_backend.Schema.Text.{Text, same_text, same_text_refl, eq_of_same_text}
use cozy_backend.Limits.{Window, Windows, find_window, open_window, new_window}
use cozy_backend.Limits.Map.{IsKeyed}
use cozy_backend.Limits.Book.{Book, window_now}
use cozy_backend.Auth.Limiter.{Limiter, policy, is_off, Op, Call, answers}
use cozy_backend.Auth.Limiter.Exact.{turn, call_exact, answers_exact, answers-from}

-- An event that was let through.
abbrev pub won : Op → Bool → ℕ
won Op.allowing true = 1
won Op.allowing false = 0
won Op.blocking _ = 0
won Op.hitting _ = 0

-- How many events of a key the answers let through.
abbrev pub granted : Text → List Call → List Bool → ℕ
granted key [] _ = 0
granted key (c ∷ cs) [] = 0
granted key (c ∷ cs) (a ∷ rest) =
    (if same_text c.key key then won c.op a else 0) + granted key cs rest

-- The time from now to the last call.
abbrev pub lasts : List Call → ℕ
lasts [] = 0
lasts (c ∷ cs) = c.gap + lasts cs

-- The time from the first call to the last.
abbrev pub stretch : List Call → ℕ
stretch [] = 0
stretch (c ∷ cs) = lasts cs

stretch_lem : (cs : List Call) → stretch cs ≤ lasts cs
stretch_lem [] = omega arith
stretch_lem (c ∷ cs) = omega arith

module _ (l : Limiter) (key : Text) where
  abbrev room : Option Window → ℕ
  room none = 0
  room (some w) = l.limit - w.count

  turn-won :
      (op : Op) (w : Window)
      → (won op (turn l op w).0 + (l.limit - (turn l op w).1.count) ≤ l.limit - w.count)
        × ((turn l op w).1.reset_at ≡ w.reset_at)
  turn-won Op.allowing w = ground arith
  turn-won Op.blocking w = ground arith
  turn-won Op.hitting w = ground arith

  -- A call on another key.
  other_key :
      (now : ℕ) (op : Op) (k : Text) (b : Book)
      → same_text k key ≡ false
      → (call_exact l now op k b).1 key ≡ b key
  other_key now op k b miss =
      if_both (λ (r : Bool × Book). r.1 key ≡ b key) (is_off l k) (λ _. refl) (λ _. rw miss refl)

  -- A call on the key itself.
  own_key :
      (now : ℕ) (op : Op) (k : Text) (b : Book)
      → is_off l key ≡ false
      → same_text k key ≡ true
      → ((call_exact l now op k b).0 ≡ (turn l op (window_now (policy l) now (b key))).0)
        × ((call_exact l now op k b).1 key ≡ some (turn l op (window_now (policy l) now (b key))).1)
  own_key now op k b works same =
      let e = eq_of_same_text k key same in rw (e, works, same_text_refl key) (refl, refl)

  -- While the window of the key runs, no more than its room is granted.
  granted-running :
      (cs : List Call) (now : ℕ) (b : Book) (w : Window)
      → is_off l key ≡ false
      → b key ≡ some w
      → now + lasts cs < w.reset_at
      → granted key cs (answers_exact l now b cs) ≤ l.limit - w.count
  granted-running [] now b w works e h = omega arith
  granted-running (c ∷ cs) now b w works e h = elim (Bool-cases (same_text c.key key)) [
    | inr miss ↦
        let kept = other_key (now + c.gap) c.op c.key b miss in
        let rest =
          granted-running cs (now + c.gap) (call_exact l (now + c.gap) c.op c.key b).1 w works
            (kept ∙ e) (omega (arith, h)) in
        rw miss (omega (arith, rest))
    | inl same ↦
        let own = own_key (now + c.gap) c.op c.key b works same in
        let runs : leb w.reset_at (now + c.gap) ≡ false = ground (arith, h) in
        let is_w : window_now (policy l) (now + c.gap) (b key) ≡ w = rw (e, runs) refl in
        let t = turn-won c.op w in
        let rest =
          granted-running cs (now + c.gap) (call_exact l (now + c.gap) c.op c.key b).1
            (turn l c.op w).1 works (own.1 ∙ ap (λ x. some (turn l c.op x).1) is_w)
            (omega (arith, h, t)) in
        rw (same, own.0, is_w) (omega (arith, t, rest))
  ]

  open_only :
      (now : ℕ) (o : Option Window) (w : Window)
      → open_window (policy l) now o ≡ some w
      → o ≡ some w
  open_only now none w h = cc
  open_only now (some x) w h = elim (Bool-cases (leb x.reset_at now)) [
    | inl over ↦ let e : none ≡ some w = rw over at h in absurd (cc)
    | inr runs ↦ rw runs at h
  ]

  -- At most one new window starts in a stretch that is shorter than a window.
  granted-stretch :
      (cs : List Call) (now : ℕ) (b : Book)
      → is_off l key ≡ false
      → stretch cs < l.window
      → granted key cs (answers_exact l now b cs) ≤ l.limit + room (b key)
  granted-stretch [] now b works h = omega arith
  granted-stretch (c ∷ cs) now b works h = elim (Bool-cases (same_text c.key key)) [
    | inr miss ↦
        let kept = other_key (now + c.gap) c.op c.key b miss in
        let rest =
          granted-stretch cs (now + c.gap) (call_exact l (now + c.gap) c.op c.key b).1 works
            (omega (arith, stretch_lem cs, h)) in
        let left = rw kept at rest in rw miss (omega (arith, left))
    | inl same ↦
        let own = own_key (now + c.gap) c.op c.key b works same in
        elim (Option-cases (open_window (policy l) (now + c.gap) (b key))) [
          | inr (w, e) ↦
              let is_w : window_now (policy l) (now + c.gap) (b key) ≡ w = rw e refl in
              let t = turn-won c.op w in
              let rest =
                granted-stretch cs (now + c.gap) (call_exact l (now + c.gap) c.op c.key b).1 works
                  (omega (arith, stretch_lem cs, h)) in
              let left = rw (own.1, is_w) at rest in
              rw (same, own.0, is_w, open_only (now + c.gap) (b key) w e) (omega (arith, t, left))
          | inl e ↦
              let w = new_window (policy l) (now + c.gap) in
              let is_w : window_now (policy l) (now + c.gap) (b key) ≡ w = rw e refl in
              let t = turn-won c.op w in
              let rest =
                granted-running cs (now + c.gap) (call_exact l (now + c.gap) c.op c.key b).1
                  (turn l c.op w).1 works (own.1 ∙ ap (λ x. some (turn l c.op x).1) is_w)
                  (omega (arith, h, t)) in
              rw (same, own.0, is_w) (omega (arith, t, rest))
        ]
  ]

  room-limit : (o : Option Window) → room o ≤ l.limit
  room-limit none = omega arith
  room-limit (some w) = omega arith

  -- For a limiter that is on, whatever its map holds (each key at most once): of the calls in a
  -- stretch of time that is shorter than one window, `allow` lets at most twice the limit through for
  -- any one key.
  pub granted-bounded :
      (now : ℕ) (ws : Windows) (cs : List Call)
      → is_off l key ≡ false
      → IsKeyed ws
      → stretch cs < l.window
      → granted key cs (answers l now ws cs) ≤ 2 * l.limit
  granted-bounded now ws cs works keyed short =
      let b : Book = λ k. find_window k ws in
      let exact = answers-from l cs now ws b (record { keyed = keyed; same = λ k. refl }) in
      rw exact (omega (arith, granted-stretch cs now b works short, room-limit (b key)))
