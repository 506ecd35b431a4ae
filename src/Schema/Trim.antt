-- ===== src/Schema/Trim.antt =====
-- What strings.TrimSpace leaves of a text.
use cozy_backend.Base.{
  ◌≡◌, refl, ap, ◌∙◌, true, false, [], ◌∷◌, ◌++◌, arith, if◌then◌else◌, if_both, All, ℕ,
}
use cozy_backend.Schema.Text.{Text, is_space, trim_left, trim_right, trim_right_cons, trim_space}

trim_cons_idem :
    (c : ℕ) (t : Text) → trim_right t ≡ t → trim_right (trim_right_cons c t) ≡ trim_right_cons c t
unfolding trim_right trim_right_cons
trim_cons_idem c [] h =
    if_both (λ s. trim_right s ≡ s) (is_space c) (λ _. refl)
      (λ e. ap (λ b. if b then [] else c ∷ []) e)
trim_cons_idem c (d ∷ ds) h = ap (trim_right_cons c) h

trim_right_idem : (s : Text) → trim_right (trim_right s) ≡ trim_right s
unfolding trim_right
trim_right_idem [] = refl
trim_right_idem (c ∷ cs) = trim_cons_idem c (trim_right cs) (trim_right_idem cs)

-- The first character is no space.
abbrev pub HasHead : Text → Type 0
HasHead [] = Unit
HasHead (c ∷ cs) = is_space c ≡ false

trim_left-HasHead : (s : Text) → HasHead (trim_left s)
unfolding trim_left
trim_left-HasHead [] = tt
trim_left-HasHead (c ∷ cs) = if_both HasHead (is_space c) (λ _. trim_left-HasHead cs) (λ e. e)

HasHead-trim_left : (s : Text) → HasHead s → trim_left s ≡ s
unfolding trim_left
HasHead-trim_left [] h = refl
HasHead-trim_left (c ∷ cs) h = ground (arith, h)

HasHead-trim_cons : (c : ℕ) (t : Text) → is_space c ≡ false → HasHead (trim_right_cons c t)
unfolding trim_right_cons
HasHead-trim_cons c [] h = if_both HasHead (is_space c) (λ _. tt) (λ e. e)
HasHead-trim_cons c (d ∷ ds) h = h

HasHead-trim_right : (s : Text) → HasHead s → HasHead (trim_right s)
unfolding trim_right
HasHead-trim_right [] h = tt
HasHead-trim_right (c ∷ cs) h = HasHead-trim_cons c (trim_right cs) h

pub trim_space_idem : (s : Text) → trim_space (trim_space s) ≡ trim_space s
unfolding trim_space
trim_space_idem s =
    ap trim_right (
      HasHead-trim_left (trim_right (trim_left s))
        (HasHead-trim_right (trim_left s) (trim_left-HasHead s)))
    ∙ trim_right_idem (trim_left s)

-- The last character is no space.
abbrev pub HasLast : Text → Type 0
HasLast [] = Unit
HasLast (c ∷ []) = is_space c ≡ false
HasLast (c ∷ d ∷ ds) = HasLast (d ∷ ds)

abbrev pub AreSpaces : Text → Type 0
AreSpaces s = All (λ c. is_space c ≡ true) s

-- `t` is `s` without some space before and after it, and neither begins nor ends with a space.
abbrev pub IsTrimmed : Text → Text → Type 0
IsTrimmed s t =
    HasHead t
    × HasLast t
    × ((before : Text) × (after : Text) × AreSpaces before
        × AreSpaces after
        × (s ≡ before ++ (t ++ after)))

trim_left-split : (s : Text) → (before : Text) × AreSpaces before × (s ≡ before ++ trim_left s)
unfolding trim_left
trim_left-split [] = ([], tt, refl)
trim_left-split (c ∷ cs) =
    let rest = trim_left-split cs in
    if_both (λ t. (before : Text) × AreSpaces before × ((c ∷ cs) ≡ before ++ t)) (is_space c)
      (λ e. (c ∷ rest.0, (e, rest.1), ap (λ u. c ∷ u) rest.2)) (λ _. ([], tt, refl))

abbrev EndsIn : Text → Text → Type 0
EndsIn s t = HasLast t × ((after : Text) × AreSpaces after × (s ≡ t ++ after))

cons-EndsIn : (c : ℕ) (cs t : Text) → EndsIn cs t → EndsIn (c ∷ cs) (trim_right_cons c t)
unfolding trim_right_cons
cons-EndsIn c cs [] h =
    if_both (EndsIn (c ∷ cs)) (is_space c)
      (λ e. (tt, (c ∷ h.1.0, (e, h.1.1), ap (λ u. c ∷ u) h.1.2)))
      (λ e. (e, (h.1.0, h.1.1, ap (λ u. c ∷ u) h.1.2)))
cons-EndsIn c cs (d ∷ ds) h = (h.0, (h.1.0, h.1.1, ap (λ u. c ∷ u) h.1.2))

trim_right-EndsIn : (s : Text) → EndsIn s (trim_right s)
unfolding trim_right
trim_right-EndsIn [] = (tt, ([], tt, refl))
trim_right-EndsIn (c ∷ cs) = cons-EndsIn c cs (trim_right cs) (trim_right-EndsIn cs)

pub trim_space-IsTrimmed : (s : Text) → IsTrimmed s (trim_space s)
unfolding trim_space
trim_space-IsTrimmed s =
    let left = trim_left-split s in
    let right = trim_right-EndsIn (trim_left s) in
    (
      HasHead-trim_right (trim_left s) (trim_left-HasHead s),
      right.0,
      (left.0, right.1.0, left.1, right.1.1, left.2 ∙ ap (λ u. left.0 ++ u) right.1.2),
    )
