-- ===== src/Limits/Map.antt =====
-- The map of windows: lookups after a write and after a sweep.
use cozy_backend.Base.{
  ℕ, ◌≡◌, refl, ◌∙◌, false, none, some, [], ◌∷◌, arith, leb, if◌then◌else◌, if_both, Bool-cases,
  inl, inr, length,
}
use cozy_backend.Schema.Text.{Text, same_text, eq_of_same_text}
use cozy_backend.Limits.{
  Window, Windows, find_window, set_window, Policy, open_window, drop_over, sweep,
}

-- No key stands twice in the map.
abbrev pub IsKeyed : Windows → Type 0
IsKeyed [] = Unit
IsKeyed ((k, w) ∷ ws) = (find_window k ws ≡ none) × IsKeyed ws

pub same_text_sym : (a b : Text) → same_text a b ≡ same_text b a
unfolding same_text
same_text_sym [] [] = refl
same_text_sym [] (d ∷ ds) = refl
same_text_sym (c ∷ cs) [] = refl
same_text_sym (c ∷ cs) (d ∷ ds) = ground (arith, same_text_sym cs ds)

pub find-set :
    (k key : Text) (w : Window) (ws : Windows)
    → find_window k (set_window key w ws) ≡ (if same_text key k then some w else find_window k ws)
find-set k key w [] = refl
find-set k key w ((j, x) ∷ ws) = elim (Bool-cases (same_text j key)) [
  | inl same ↦ let e = eq_of_same_text j key same in rw (same, e) (ground arith)
  | inr other ↦ elim (Bool-cases (same_text j k)) [
    | inl hit ↦
        let e = eq_of_same_text j k hit in
        let miss : same_text key k ≡ false = same_text_sym key k ∙ (rw (← e) other) in
        rw (other, hit, miss) refl
    | inr miss ↦ rw (other, miss) (find-set k key w ws)
  ]
]

pub set-IsKeyed :
    (key : Text) (w : Window) (ws : Windows) → IsKeyed ws → IsKeyed (set_window key w ws)
set-IsKeyed key w [] h = (refl, tt)
set-IsKeyed key w ((j, x) ∷ ws) h = elim (Bool-cases (same_text j key)) [
  | inl same ↦ rw same h
  | inr other ↦
      let miss : same_text key j ≡ false = same_text_sym key j ∙ other in
      rw other ((rw (find-set j key w ws, miss) h.0), set-IsKeyed key w ws h.1)
]

module _ (p : Policy) (now : ℕ) where
  find_none-drop :
      (k : Text) (ws : Windows)
      → find_window k ws ≡ none
      → find_window k (drop_over p now ws) ≡ none
  find_none-drop k [] h = refl
  find_none-drop k ((j, x) ∷ ws) h = ground (arith, h, find_none-drop k ws)

  drop-IsKeyed : (ws : Windows) → IsKeyed ws → IsKeyed (drop_over p now ws)
  drop-IsKeyed [] h = tt
  drop-IsKeyed ((j, x) ∷ ws) h =
      if_both IsKeyed (p.is_over x.reset_at now) (λ _. drop-IsKeyed ws h.1)
        (λ _. (find_none-drop j ws h.0, drop-IsKeyed ws h.1))

  pub sweep-IsKeyed : (ws : Windows) → IsKeyed ws → IsKeyed (sweep p now ws)
  sweep-IsKeyed ws h =
      if_both IsKeyed (leb p.sweep_at (length ws)) (λ _. drop-IsKeyed ws h) (λ _. h)

  open-drop :
      (k : Text) (ws : Windows)
      → IsKeyed ws
      → open_window p now (find_window k (drop_over p now ws))
        ≡ open_window p now (find_window k ws)
  open-drop k [] h = refl
  open-drop k ((j, x) ∷ ws) h = elim (Bool-cases (p.is_over x.reset_at now)) [
    | inr stays ↦ elim (Bool-cases (same_text j k)) [
      | inl hit ↦ rw (stays, hit) refl
      | inr miss ↦ rw (stays, miss) (open-drop k ws h.1)
    ]
    | inl leaves ↦ elim (Bool-cases (same_text j k)) [
      | inl hit ↦
          let e = eq_of_same_text j k hit in
          let gone : find_window k ws ≡ none = rw (← e) h.0 in
          rw (leaves, hit, find_none-drop k ws gone) (ground (arith, leaves))
      | inr miss ↦ rw (leaves, miss) (open-drop k ws h.1)
    ]
  ]

  pub open-sweep :
      (k : Text) (ws : Windows)
      → IsKeyed ws
      → open_window p now (find_window k (sweep p now ws)) ≡ open_window p now (find_window k ws)
  open-sweep k ws h =
      if_both (λ xs. open_window p now (find_window k xs) ≡ open_window p now (find_window k ws))
        (leb p.sweep_at (length ws)) (λ _. open-drop k ws h) (λ _. refl)
