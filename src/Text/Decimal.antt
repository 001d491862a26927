-- ===== src/Text/Decimal.antt =====
-- Decimal numerals: fmt's %d and %0*d on numbers that are not negative, and strconv.Atoi on digits.
use sudostream.Prelude.{
  [], Bool, if◌then◌else◌, leb, length, ltb, none, Option, some, suc, zero, ℕ, ◌%◌, ◌&&◌, ◌*◌, ◌++◌,
  ◌+◌, ◌-◌, ◌/◌, ◌∷◌,
}
use sudostream.Text.{Bytes}

-- The digits of `n` in front of `tail`; `fuel` above the number of digits is enough.
unfoldable pub digits_onto : ℕ → ℕ → Bytes → Bytes
digits_onto zero n tail = tail
digits_onto (suc fuel) n tail =
    let rest = digits_onto fuel (n / 10) ((b'0' + n % 10) ∷ tail) in
    if ltb n 10 then (b'0' + n) ∷ tail else rest

-- %d. A number has at most as many digits as one more than itself.
unfoldable pub decimal : ℕ → Bytes
decimal n = digits_onto (suc n) n []

unfoldable pub zeros : ℕ → Bytes
zeros zero = []
zeros (suc n) = b'0' ∷ zeros n

-- %0*d: zeros in front up to the width.
unfoldable pub decimal_padded : ℕ → ℕ → Bytes
decimal_padded width n = zeros (width - length (decimal n)) ++ decimal n

abbrev pub is_digit : ℕ → Bool
is_digit c = leb b'0' c && leb c b'9'

-- The digits of a text read onto a number.
unfoldable pub read_digits : ℕ → Bytes → Option ℕ
read_digits acc [] = some acc
read_digits acc (c ∷ s) =
    let rest = read_digits (acc * 10 + (c - b'0')) s in if is_digit c then rest else none
