-- ===== src/Orders/Create/Sequence.antt =====
-- Order numbers of one day are told apart by their sequence number (formatOrderNumber in
-- internal/orders/order.go).
use cozy_backend.Base.{
  ℕ, zero, suc, ◌+◌, ◌-◌, ◌*◌, ◌/◌, ◌%◌, ◌<◌, ◌≡◌, refl, sym, ap, ◌∙◌, [], ◌∷◌, ◌++◌, arith, ltb,
  if_both, length,
}
use cozy_backend.Schema.Text.{Text}
use cozy_backend.Orders.Create.Number.{
  digits_from, decimal, pad, order_number_prefix, format_order_number,
}

-- The number that digits stand for, after the number `n` read so far.
abbrev read_on : ℕ → Text → ℕ
read_on n [] = n
read_on n (d ∷ ds) = read_on (n * 10 + (d - b'0')) ds

-- 10 ^ k
abbrev pub power : ℕ → ℕ
power zero = 1
power (suc k) = 10 * power k

read_on-digits_from :
    (f n : ℕ) (rest : Text) → n < power f → read_on 0 (digits_from f n rest) ≡ read_on n rest
unfolding digits_from
read_on-digits_from zero n rest h = ap (λ m. read_on m rest) (omega (arith, h))
read_on-digits_from (suc f) n rest h =
    if_both (λ s. read_on 0 s ≡ read_on n rest) (ltb n 10)
      (λ _. ap (λ m. read_on m rest) (omega arith))
      (λ _.
        read_on-digits_from f (n / 10) ((b'0' + n % 10) ∷ rest) (omega (arith, h))
        ∙ ap (λ m. read_on m rest) (omega arith))

read_on-pad : (k : ℕ) (s : Text) → read_on 0 (pad k s) ≡ read_on 0 s
unfolding pad
read_on-pad zero s = refl
read_on-pad (suc k) s =
    if_both (λ t. read_on 0 t ≡ read_on 0 s) (ltb (length s) 3)
      (λ _. read_on-pad k (b'0' ∷ s) ∙ ap (λ m. read_on m s) (omega arith)) (λ _. refl)

-- What follows a prefix.
abbrev after : Text → Text → Text
after [] s = s
after (_ ∷ cs) [] = []
after (_ ∷ cs) (_ ∷ ds) = after cs ds

after-append : (p s : Text) → after p (p ++ s) ≡ s
after-append [] s = refl
after-append (c ∷ cs) s = after-append cs s

abbrev order_seq : Text → Text → ℕ
order_seq date number = read_on 0 (after (order_number_prefix date) number)

order_seq-format_order_number :
    (date : Text) (seq : ℕ) → seq < power 20 → order_seq date (format_order_number date seq) ≡ seq
unfolding format_order_number
order_seq-format_order_number date seq h =
    ap (read_on 0) (after-append (order_number_prefix date) (pad 3 (decimal seq)))
    ∙ read_on-pad 3 (decimal seq)
    ∙ read_on-digits_from 20 seq [] h

-- For sequence numbers below 10 ^ 20, two order numbers of the same day are equal only if their
-- sequence numbers are.
pub format_order_number-injective :
    (date : Text) (m n : ℕ)
    → m < power 20
    → n < power 20
    → format_order_number date m ≡ format_order_number date n
    → m ≡ n
format_order_number-injective date m n hm hn e =
    sym (order_seq-format_order_number date m hm)
    ∙ ap (order_seq date) e
    ∙ order_seq-format_order_number date n hn
