-- ===== src/Auth/Review/Lock.antt =====
-- The lockout of the store-review code (reviewGuard in internal/auth/review_guard.go).
use cozy_backend.Base.{
  ℕ, ◌+◌, ◌≡◌, refl, ap, ◌∙◌, Bool, true, false, not, ◌&&◌, List, [], ◌∷◌, arith, leb,
  if◌then◌else◌, Bool-cases, inl, inr, if_both,
}
use cozy_backend.Schema.Text.{Text, same_text}
use cozy_backend.Auth.Rows.{ReviewGuard}
use cozy_backend.Auth.Review.{review_max_failures, fail_review, check_review}

-- The guard when the process starts.
abbrev pub fresh_guard : ReviewGuard
fresh_guard = record { failures = 0; tripped = false }

-- The guard after some codes were checked.
abbrev pub check_all : Text → List Text → ReviewGuard → ReviewGuard
check_all want [] g = g
check_all want (code ∷ rest) g = check_all want rest (check_review code want g).1

-- How many of the codes are wrong.
abbrev pub wrong : Text → List Text → ℕ
wrong want [] = 0
wrong want (code ∷ rest) = (if same_text code want then 0 else 1) + wrong want rest

check_shut :
    (code want : Text) (g : ReviewGuard) → g.tripped ≡ true → check_review code want g ≡ (false, g)
unfolding check_review
check_shut code want g h = if_both (λ x. x ≡ (false, g)) g.tripped (λ _. refl) (λ no. absurd (cc))

check_running :
    (code want : Text) (g : ReviewGuard)
    → g.tripped ≡ false
    → check_review code want g ≡ (if same_text code want then (true, g) else (false, fail_review g))
unfolding check_review
check_running code want g h =
    if_both (λ x. x ≡ (if same_text code want then (true, g) else (false, fail_review g))) g.tripped
      (λ yes. absurd (cc)) (λ _. refl)

check_all-tripped :
    (want : Text) (tried : List Text) (g : ReviewGuard)
    → g.tripped ≡ leb review_max_failures g.failures
    → (check_all want tried g).tripped ≡ leb review_max_failures (g.failures + wrong want tried)
check_all-tripped want [] g h = ground (arith, h)
check_all-tripped want (code ∷ rest) g h = elim (Bool-cases g.tripped) [
  | inl shut ↦
      let one = check_shut code want g shut in
      let later = check_all-tripped want rest g h in simp one (later ∙ ground (arith, h, shut))
  | inr runs ↦ elim (Bool-cases (same_text code want)) [
    | inl right ↦
        let one = check_running code want g runs in
        let later = check_all-tripped want rest g h in simp one (rw right (later ∙ ground (arith)))
    | inr bad ↦
        let one = check_running code want g runs in
        let later = check_all-tripped want rest (fail_review g) refl in
        simp one (rw bad (later ∙ ground (arith)))
  ]
]

answer_checked :
    (b : Bool) (g : ReviewGuard)
    → (if◌then◌else◌ {A = Bool × ReviewGuard} b (true, g) (false, fail_review g)).0 ≡ b
answer_checked true g = refl
answer_checked false g = refl

-- After any codes were checked, a code is accepted exactly if it is the right one and fewer than ten
-- of the codes before it were wrong: ten wrong codes lock the account for good, however many right
-- ones stand between them.
pub check_review-locks :
    (want code : Text) (tried : List Text)
    → (check_review code want (check_all want tried fresh_guard)).0
      ≡ (not (leb review_max_failures (wrong want tried)) && same_text code want)
check_review-locks want code tried =
    let g = check_all want tried fresh_guard in
    let tripped = check_all-tripped want tried fresh_guard refl in
    elim (Bool-cases g.tripped) [
      | inl shut ↦
          let one : (check_review code want g).0 ≡ false =
            ap (λ r. r.0) (check_shut code want g shut) in
          ground (arith, one, shut, tripped)
      | inr runs ↦
          let one : (check_review code want g).0 ≡ same_text code want =
            ap (λ r. r.0) (check_running code want g runs)
            ∙ answer_checked (same_text code want) g in
          ground (arith, one, runs, tripped)
    ]
