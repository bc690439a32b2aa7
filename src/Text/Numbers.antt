-- ===== src/Text/Numbers.antt =====
-- Digits: hexadecimal ones, and `%d` of a number.
use ssh_sign.Prelude.{ℕ, zero, suc, ◌+◌, ◌-◌, ◌/◌, ◌%◌, [], ◌∷◌, ltb, if◌then◌else◌}
use ssh_sign.Text.Bytes.{Bytes}

abbrev pub hex_digit : ℕ → ℕ
hex_digit d = if ltb d 10 then d + b'0' else d - 10 + b'a'

-- The digits of `n` before `out`, in at most as many rounds as there are.
unfoldable pub digits_onto : ℕ → ℕ → Bytes → Bytes
digits_onto zero n out = out
digits_onto (suc rounds) n out =
    let more = digits_onto rounds (n / 10) ((n % 10 + b'0') ∷ out) in
    if ltb n 10 then (n + b'0') ∷ out else more

-- A number has no more digits than its value and one.
unfoldable pub decimal : ℕ → Bytes
unfolding digits_onto
decimal n = digits_onto (n + 1) n []
