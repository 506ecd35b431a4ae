-- ===== src/Orders/Create/Number.antt =====
-- Order numbers "COZY-YYYYMMDD-NNN" (nextOrderNumber and formatOrderNumber in
-- internal/orders/order.go).
use cozy_backend.Base.{ℕ, zero, suc, ◌+◌, ◌/◌, ◌%◌, [], ◌∷◌, ◌++◌, ltb, if◌then◌else◌, length}
use cozy_backend.Schema.Text.{Text}

-- The decimal digits of `n`, before `rest`; one round of fuel for each digit.
unfoldable pub digits_from : ℕ → ℕ → Text → Text
digits_from zero n rest = rest
digits_from (suc f) n rest =
    let more = digits_from f (n / 10) ((b'0' + n % 10) ∷ rest) in
    if ltb n 10 then (b'0' + n) ∷ rest else more

-- A number below 10 ^ 20 has at most 20 digits, and a Go `int` is below 2 ^ 63.
abbrev pub decimal : ℕ → Text
decimal n = digits_from 20 n []

-- `%03d`: zeros in front up to three places.
unfoldable pub pad : ℕ → Text → Text
pad zero s = s
pad (suc k) s = let more = pad k (b'0' ∷ s) in if ltb (length s) 3 then more else s

abbrev pub order_number_prefix : Text → Text
order_number_prefix date = b'C' ∷ b'O' ∷ b'Z' ∷ b'Y' ∷ b'-' ∷ (date ++ (b'-' ∷ []))

-- `formatOrderNumber`
unfoldable pub format_order_number : Text → ℕ → Text
unfolding digits_from pad
format_order_number date seq = order_number_prefix date ++ pad 3 (decimal seq)
