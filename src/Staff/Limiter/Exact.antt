-- ===== src/Staff/Limiter/Exact.antt =====
-- The login limiter against its specification, which forgets no window but those it is told to
-- (internal/staff/ratelimit.go).
use cozy_backend.Base.{
  ℕ, ◌+◌, ◌≡◌, refl, ◌∙◌, Bool, true, false, none, List, [], ◌∷◌, arith, if◌then◌else◌, Bool-cases,
  inl, inr,
}
use cozy_backend.Schema.Text.{Text, same_text, eq_of_same_text}
use cozy_backend.Limits.{Windows, find_window, current}
use cozy_backend.Limits.Map.{IsKeyed, same_text_sym}
use cozy_backend.Limits.Book.{
  take_one, spend-Agrees, Book, put, window_now, Agrees, current-Agrees, wait-Agrees,
}
use cozy_backend.Staff.Limiter.{login_policy, max_of, login_allow, login_reset}

-- An attempt or a success, some seconds after the call before it.
pub record LoginCall : Type 0 where
  pub gap : ℕ
  pub succeeds : Bool
  pub key : Text

abbrev pub login_call : ℕ → ℕ → Bool → Text → Windows → Bool × Windows
login_call limit now true key ws = (true, login_reset key ws)
login_call limit now false key ws = login_allow limit now key ws

abbrev pub login_answers : ℕ → ℕ → Windows → List LoginCall → List Bool
login_answers limit now ws [] = []
login_answers limit now ws (c ∷ cs) =
    let done = login_call limit (now + c.gap) c.succeeds c.key ws in
    done.0 ∷ login_answers limit (now + c.gap) done.1 cs

-- The specification: a window for every key.
abbrev pub erase : Text → Book → Book
erase key b k = if same_text key k then none else b k

abbrev pub login_exact : ℕ → ℕ → Bool → Text → Book → Bool × Book
login_exact limit now true key b = (true, erase key b)
login_exact limit now false key b =
    let done = take_one (max_of limit) (window_now login_policy now (b key)) in
    (done.0, put key done.1 b)

abbrev pub login_answers_exact : ℕ → ℕ → Book → List LoginCall → List Bool
login_answers_exact limit now b [] = []
login_answers_exact limit now b (c ∷ cs) =
    let done = login_exact limit (now + c.gap) c.succeeds c.key b in
    done.0 ∷ login_answers_exact limit (now + c.gap) done.1 cs

find-reset :
    (k key : Text) (ws : Windows)
    → find_window k (login_reset key ws) ≡ (if same_text key k then none else find_window k ws)
unfolding login_reset
find-reset k key [] = ground arith
find-reset k key ((j, x) ∷ ws) = elim (Bool-cases (same_text j key)) [
  | inl same ↦
      let e = eq_of_same_text j key same in
      rw same (find-reset k key ws ∙ (rw (← e) (ground arith)))
  | inr other ↦ elim (Bool-cases (same_text j k)) [
    | inl hit ↦
        let e = eq_of_same_text j k hit in
        let miss : same_text key k ≡ false = same_text_sym key k ∙ (rw (← e) other) in
        rw (other, hit, miss) refl
    | inr miss ↦ rw (other, miss) (find-reset k key ws)
  ]
]

reset-IsKeyed : (key : Text) (ws : Windows) → IsKeyed ws → IsKeyed (login_reset key ws)
unfolding login_reset
reset-IsKeyed key [] h = tt
reset-IsKeyed key ((j, x) ∷ ws) h = elim (Bool-cases (same_text j key)) [
  | inl same ↦ rw same (reset-IsKeyed key ws h.1)
  | inr other ↦
      let gone : find_window j (login_reset key ws) ≡ none =
        find-reset j key ws ∙ ground (arith, h.0) in
      rw other (gone, reset-IsKeyed key ws h.1)
]

erase-Agrees :
    (now : ℕ) (key : Text) (ws : Windows) (b : Book)
    → Agrees login_policy now ws b
    → Agrees login_policy now (login_reset key ws) (erase key b)
erase-Agrees now key ws b h = record {
  keyed = reset-IsKeyed key ws h.keyed;
  same = λ k. elim (Bool-cases (same_text key k)) [
    | inl hit ↦ rw (find-reset k key ws, hit) refl
    | inr miss ↦ rw (find-reset k key ws, miss) (h.same k)
  ];
}

abbrev Same : ℕ → Bool × Windows → Bool × Book → Type 0
Same now r s = (r.0 ≡ s.0) × Agrees login_policy now r.1 s.1

call-Same :
    (limit now : ℕ) (succeeds : Bool) (key : Text) (ws : Windows) (b : Book)
    → Agrees login_policy now ws b
    → Same now (login_call limit now succeeds key ws) (login_exact limit now succeeds key b)
unfolding login_allow
call-Same limit now true key ws b h = (refl, erase-Agrees now key ws b h)
call-Same limit now false key ws b h =
    let c = current-Agrees login_policy now key ws b h in
    spend-Agrees login_policy now (max_of limit) key b (window_now login_policy now (b key))
      (current login_policy now key ws) c.0 c.1

login_answers-from :
    (limit : ℕ) (cs : List LoginCall) (now : ℕ) (ws : Windows) (b : Book)
    → Agrees login_policy now ws b
    → login_answers limit now ws cs ≡ login_answers_exact limit now b cs
login_answers-from limit [] now ws b h = refl
login_answers-from limit (c ∷ cs) now ws b h =
    let waited = wait-Agrees login_policy now c.gap ws b (λ r over. ground (arith, over)) h in
    let done = call-Same limit (now + c.gap) c.succeeds c.key ws b waited in
    let rest = login_answers-from limit cs (now + c.gap) _ _ done.1 in rw (done.0, rest) refl

-- For any limit and any attempts and successful logins, the limiter that starts empty answers as one
-- that keeps the window of every key until a success erases it: neither the sweep of the map nor the
-- removal of one key changes an answer about another.
pub login_answers-exact :
    (limit now : ℕ) (cs : List LoginCall)
    → login_answers limit now [] cs ≡ login_answers_exact limit now (λ _. none) cs
login_answers-exact limit now cs =
    login_answers-from limit cs now [] (λ _. none) (record { keyed = tt; same = λ k. refl })
