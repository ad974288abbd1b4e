-- ===== src/Text/Number.antt =====
-- Decimal numbers: `str::parse` for the unsigned types, and `Display`.
use gmv_pjsip.Prelude.{
  ℕ, zero, suc, ◌+◌, ◌-◌, ◌*◌, ◌/◌, ◌%◌, [], ◌∷◌, Option, none, some, ltb, ◌==◌, if◌then◌else◌,
  length,
}
use gmv_pjsip.Text.Chars.{Text, is_ascii_digit}

-- `n * 10 + d` digit by digit, refused as soon as it exceeds the type's largest value
unfoldable pub parse_digits : ℕ → ℕ → Text → Option ℕ
unfolding is_ascii_digit
parse_digits max acc [] = some acc
parse_digits max acc (c ∷ s) =
    let next = acc * 10 + (c - b'0') in
    let rest = parse_digits max next s in
    if is_ascii_digit c then (if ltb max next then none else rest) else none

-- A leading `+` is taken, and no digit at all is an error.
unfoldable pub parse_uint : ℕ → Text → Option ℕ
unfolding parse_digits
parse_uint max [] = none
parse_uint max (c ∷ []) = parse_digits max 0 (c ∷ [])
parse_uint max (c ∷ d ∷ s) =
    if c == b'+' then parse_digits max 0 (d ∷ s) else parse_digits max 0 (c ∷ d ∷ s)

-- The digits of `n`, least significant last, with a bound on their number.
unfoldable pub print_digits : ℕ → ℕ → Text → Text
print_digits zero n out = out
print_digits (suc f) n out =
    let more = print_digits f (n / 10) ((b'0' + n % 10) ∷ out) in
    let last = (b'0' + n) ∷ out in if ltb n 10 then last else more

-- `{}` of an unsigned number of at most twenty digits (64 bits)
unfoldable pub print_uint : ℕ → Text
unfolding print_digits
print_uint n = print_digits 20 n []

unfoldable pub pad_zeros : ℕ → Text → Text
pad_zeros zero s = s
pad_zeros (suc k) s = b'0' ∷ pad_zeros k s

-- `{:0width}`
unfoldable pub print_padded : ℕ → ℕ → Text
unfolding print_uint pad_zeros
print_padded width n = let s = print_uint n in pad_zeros (width - length s) s
