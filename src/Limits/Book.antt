-- ===== src/Limits/Book.antt =====
-- The map of windows against a book that gives every key its window and is never swept.
use cozy_backend.Base.{
  ℕ, ◌+◌, ◌≡◌, refl, sym, ap, ◌∙◌, true, Option, none, some, if◌then◌else◌, Bool-cases,
  Option-cases, inl, inr, leb, Bool, false,
}
use cozy_backend.Schema.Text.{Text, same_text, eq_of_same_text}
use cozy_backend.Limits.{
  add_one, spend, Window, Windows, find_window, set_window, Policy, open_window, new_window, sweep,
  current,
}
use cozy_backend.Limits.Map.{IsKeyed, find-set, set-IsKeyed, sweep-IsKeyed, open-sweep}

abbrev pub Book : Type 0
Book = Text → Option Window

abbrev pub put : Text → Window → Book → Book
put key w b k = if same_text key k then some w else b k

-- The window that counts for a key now.
abbrev pub window_or_new : Policy → ℕ → Option Window → Window
window_or_new p now none = new_window p now
window_or_new p now (some w) = w

abbrev pub window_now : Policy → ℕ → Option Window → Window
window_now p now o = window_or_new p now (open_window p now o)

-- One event more for a window whose budget has room.
abbrev pub take_one : ℕ → Window → Bool × Window
take_one limit w = if leb limit w.count then (false, w) else (true, add_one w)

-- The map and the book agree on the windows that are not over.
pub record Agrees (p : Policy) (now : ℕ) (ws : Windows) (b : Book) : Type 0 where
  pub keyed : IsKeyed ws
  pub same : (k : Text) → open_window p now (find_window k ws) ≡ open_window p now (b k)

module _ (p : Policy) where
  pub set-Agrees :
      (now : ℕ) (key : Text) (w : Window) (ws : Windows) (b : Book)
      → Agrees p now ws b
      → Agrees p now (set_window key w ws) (put key w b)
  set-Agrees now key w ws b h = record {
    keyed = set-IsKeyed key w ws h.keyed;
    same = λ k. elim (Bool-cases (same_text key k)) [
      | inl hit ↦ rw (find-set k key w ws, hit) refl
      | inr miss ↦ rw (find-set k key w ws, miss) (h.same k)
    ];
  }

  -- Only the newest entry of a key counts.
  pub reset-Agrees :
      (now : ℕ) (key : Text) (x w : Window) (ws : Windows) (b : Book)
      → Agrees p now ws (put key w b)
      → Agrees p now (set_window key x ws) (put key x b)
  reset-Agrees now key x w ws b h = record {
    keyed = set-IsKeyed key x ws h.keyed;
    same = λ k. elim (Bool-cases (same_text key k)) [
      | inl hit ↦ rw (find-set k key x ws, hit) refl
      | inr miss ↦
          let e : open_window p now (find_window k ws) ≡ open_window p now (b k) =
            rw miss at (h.same k) in
          rw (find-set k key x ws, miss) e
    ];
  }

  sweep-Agrees :
      (now : ℕ) (ws : Windows) (b : Book) → Agrees p now ws b → Agrees p now (sweep p now ws) b
  sweep-Agrees now ws b h = record {
    keyed = sweep-IsKeyed p now ws h.keyed;
    same = λ k. open-sweep p now k ws h.keyed ∙ h.same k;
  }

  open_window-open :
      (now : ℕ) (o : Option Window) (w : Window)
      → open_window p now o ≡ some w
      → open_window p now (some w) ≡ some w
  open_window-open now none w h = cc
  open_window-open now (some x) w h = elim (Bool-cases (p.is_over x.reset_at now)) [
    | inl over ↦ let e : none ≡ some w = rw over at h in absurd (cc)
    | inr runs ↦ let e : some x ≡ some w = rw runs at h in let s : x ≡ w = cc in rw (← s, runs) refl
  ]

  -- A key whose window is in force may be written down again.
  keep-Agrees :
      (now : ℕ) (key : Text) (w : Window) (ws : Windows) (b : Book)
      → Agrees p now ws b
      → open_window p now (b key) ≡ some w
      → Agrees p now ws (put key w b)
  keep-Agrees now key w ws b h e = record {
    keyed = h.keyed;
    same = λ k. elim (Bool-cases (same_text key k)) [
      | inl hit ↦
          let s = eq_of_same_text key k hit in
          rw hit (h.same k ∙ (rw (← s) e) ∙ sym (open_window-open now (b key) w e))
      | inr miss ↦ rw miss (h.same k)
    ];
  }

  pub current-Agrees :
      (now : ℕ) (key : Text) (ws : Windows) (b : Book)
      → Agrees p now ws b
      → ((current p now key ws).0 ≡ window_now p now (b key))
        × Agrees p now (current p now key ws).1 (put key (window_now p now (b key)) b)
  unfolding current
  current-Agrees now key ws b h = elim (Option-cases (open_window p now (b key))) [
    | inl e ↦
        let f = h.same key ∙ e in
        rw (f, e) (refl, set-Agrees now key (new_window p now) _ b (sweep-Agrees now ws b h))
    | inr (w, e) ↦ let f = h.same key ∙ e in rw (f, e) (refl, keep-Agrees now key w ws b h e)
  ]

  -- Spending from a window in the map is spending from it in the book.
  pub spend-Agrees :
      (now limit : ℕ) (key : Text) (b : Book) (w : Window) (found : Window × Windows)
      → found.0 ≡ w
      → Agrees p now found.1 (put key w b)
      → ((spend limit key found).0 ≡ (take_one limit w).0)
        × Agrees p now (spend limit key found).1 (put key (take_one limit w).1 b)
  spend-Agrees now limit key b w (x, ws) e h = elim (Bool-cases (leb limit w.count)) [
    | inl spent ↦ rw (e, spent) (refl, h)
    | inr room ↦ rw (e, room) (refl, reset-Agrees now key (add_one w) w ws b h)
  ]

  -- Time runs on.
  pub wait-Agrees :
      (now gap : ℕ) (ws : Windows) (b : Book)
      → ((r : ℕ) → p.is_over r now ≡ true → p.is_over r (now + gap) ≡ true)
      → Agrees p now ws b
      → Agrees p (now + gap) ws b
  wait-Agrees now gap ws b later h = record {
    keyed = h.keyed;
    same = λ k. wait-open (find_window k ws) (b k) (h.same k);
  }
    where
      later_open :
          (o : Option Window)
          → open_window p (now + gap) o ≡ open_window p (now + gap) (open_window p now o)
      later_open none = refl
      later_open (some w) = elim (Bool-cases (p.is_over w.reset_at now)) [
        | inl over ↦ rw (over, later w.reset_at over) refl
        | inr runs ↦ rw runs refl
      ]

      wait-open :
          (o o' : Option Window)
          → open_window p now o ≡ open_window p now o'
          → open_window p (now + gap) o ≡ open_window p (now + gap) o'
      wait-open o o' e = later_open o ∙ ap (open_window p (now + gap)) e ∙ sym (later_open o')
