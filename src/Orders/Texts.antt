-- ===== src/Orders/Texts.antt =====
-- What normalizeComment and normalizeIdempotencyKey accept (internal/orders/order.go).
use cozy_backend.Base.{
  ◌≤◌, ◌≡◌, refl, sym, ap, ◌∙◌, subst, true, false, not, Option, none, some, [], ◌∷◌, arith, ltb,
  if◌then◌else◌, length, any_row, All,
}
use cozy_backend.Apperr.{Result, ok, err, passed, comment_too_long, invalid_idempotency_key}
use cozy_backend.Schema.Text.{Text, trim_space, byte_len}
use cozy_backend.Schema.Trim.{IsTrimmed, trim_space_idem, trim_space-IsTrimmed}
use cozy_backend.Orders.Settings.{max_comment_len, max_idempotency_key_len}
use cozy_backend.Orders.Input.{normalize_comment, normalize_idempotency_key, is_printable}

abbrev comment_of : Text → Result (Option Text)
comment_of t = elim t [
  | [] ↦ ok none
  | d ∷ ds ↦
      if ltb max_comment_len (length (d ∷ ds)) then err comment_too_long else ok (some (d ∷ ds))
]

comment_of-some : (u t : Text) → comment_of u ≡ ok (some t) → (u ≡ t) × (length t ≤ max_comment_len)
comment_of-some [] t h = cc
comment_of-some (d ∷ ds) t h =
    let through =
      passed (ltb max_comment_len (length (d ∷ ds))) comment_too_long (ok (some (d ∷ ds))) (some t)
        h in
    let same : (d ∷ ds) ≡ t = cc in
    (same, subst (λ x. length x ≤ max_comment_len) same (ground (arith, through.0)))

-- A comment that is stored is at most 500 characters long and is the given text without the space
-- before and after it; and normalizing it once more gives it back.
pub normalize_comment-stable :
    (c t : Text)
    → normalize_comment c ≡ ok (some t)
    → (length t ≤ max_comment_len) × IsTrimmed c t × (normalize_comment t ≡ ok (some t))
unfolding normalize_comment
normalize_comment-stable c t h =
    let same = comment_of-some (trim_space c) t h in
    (
      same.1,
      subst (IsTrimmed c) same.0 (trim_space-IsTrimmed c),
      ap (λ u. comment_of (trim_space u)) (sym same.0) ∙ ap comment_of (trim_space_idem c) ∙ h,
    )

abbrev key_of : Text → Result (Option Text)
key_of t = elim t [
  | [] ↦ ok none
  | d ∷ ds ↦
      if ltb max_idempotency_key_len (byte_len (d ∷ ds))
      then err invalid_idempotency_key
      else if any_row (λ r. not (is_printable r)) (d ∷ ds)
      then err invalid_idempotency_key
      else ok (some (d ∷ ds))
]

printable-length :
    (t : Text)
    → any_row (λ r. not (is_printable r)) t ≡ false
    → All (λ r. is_printable r ≡ true) t × (byte_len t ≡ length t)
printable-length [] h = (tt, refl)
printable-length (r ∷ rs) h =
    let rest = printable-length rs (ground (arith, h)) in
    let here : is_printable r ≡ true = ground (arith, h) in
    ((here, rest.0), ground (arith, rest.1, here))

key_of-some :
    (u t : Text)
    → key_of u ≡ ok (some t)
    → (u ≡ t)
      × (1 ≤ length t)
      × (byte_len t ≤ max_idempotency_key_len)
      × (any_row (λ r. not (is_printable r)) t ≡ false)
key_of-some [] t h = cc
key_of-some (d ∷ ds) t h =
    let through =
      passed (ltb max_idempotency_key_len (byte_len (d ∷ ds))) invalid_idempotency_key _ (some t)
        h in
    let printable =
      passed (any_row (λ r. not (is_printable r)) (d ∷ ds)) invalid_idempotency_key
        (ok (some (d ∷ ds))) (some t) through.1 in
    let same : (d ∷ ds) ≡ t = cc in
    (
      same,
      subst (λ x. 1 ≤ length x) same (omega arith),
      subst (λ x. byte_len x ≤ max_idempotency_key_len) same (ground (arith, through.0)),
      subst (λ x. any_row (λ r. not (is_printable r)) x ≡ false) same printable.0,
    )

-- A key that is stored has 1 to 64 characters, all of them printable ASCII without the space.
pub normalize_idempotency_key-printable :
    (k t : Text)
    → normalize_idempotency_key k ≡ ok (some t)
    → (1 ≤ length t) × (length t ≤ max_idempotency_key_len) × All (λ r. is_printable r ≡ true) t
unfolding normalize_idempotency_key
normalize_idempotency_key-printable k t h =
    let key = key_of-some (trim_space k) t h in
    let printable = printable-length t key.3 in
    (key.1, omega (arith, key.2, printable.1), printable.0)
