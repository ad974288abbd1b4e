-- ===== src/Gb28181/Sdp/Decimal.antt =====
-- Printed numbers are words, and are read back.
use gmv_pjsip.Prelude.{
  ℕ, zero, suc, ◌+◌, ◌-◌, ◌*◌, ◌/◌, ◌%◌, ◌^◌, ◌≤◌, ◌<◌, ◌≡◌, refl, ◌∙◌, true, false, not, [], ◌∷◌,
  some, arith, is_empty, all, ltb, ltb→lt, Bool-cases, inl, inr, ap, length,
}
use gmv_pjsip.Text.{
  Text, is_ascii_digit, is_whitespace, parse_digits, parse_uint, print_digits, print_uint,
  pad_zeros, print_padded,
}
use gmv_pjsip.Gb28181.Sdp.Words.{IsWord}

abbrev Digits : Text → Type 0
Digits t = all is_ascii_digit t ≡ true

print_digits-Digits : (f n : ℕ) (out : Text) → Digits out → Digits (print_digits f n out)
unfolding print_digits is_ascii_digit
print_digits-Digits zero n out h = h
print_digits-Digits (suc f) n out h =
    ground (arith, print_digits-Digits f (n / 10) ((b'0' + n % 10) ∷ out))

print_digits-is_empty :
    (f n : ℕ) (out : Text) → is_empty out ≡ false → is_empty (print_digits f n out) ≡ false
unfolding print_digits
print_digits-is_empty zero n out h = h
print_digits-is_empty (suc f) n out h =
    ground (arith, print_digits-is_empty f (n / 10) ((b'0' + n % 10) ∷ out))

print_uint-is_empty : (n : ℕ) → is_empty (print_uint n) ≡ false
unfolding print_uint print_digits
print_uint-is_empty n = ground (arith, print_digits-is_empty 19 (n / 10) ((b'0' + n % 10) ∷ []))

parse_digits-digit :
    (max acc d : ℕ) (out : Text)
    → d < 10
    → acc * 10 + d ≤ max
    → parse_digits max acc ((b'0' + d) ∷ out) ≡ parse_digits max (acc * 10 + d) out
unfolding parse_digits is_ascii_digit
parse_digits-digit max acc d out s h =
    let same : acc * 10 + (b'0' + d - b'0') ≡ acc * 10 + d = omega arith in rw same (ground arith)

parse_digits-print_digits :
    (max f n : ℕ) (out : Text)
    → n ≤ max
    → n < 10 ^ f
    → parse_digits max 0 (print_digits f n out) ≡ parse_digits max n out
unfolding print_digits
parse_digits-print_digits max zero n out h b = ap (λ (x : ℕ). parse_digits max x out) (omega arith)
parse_digits-print_digits max (suc f) n out h b = elim (Bool-cases (ltb n 10)) [
  | inl e ↦ rw e (
      parse_digits-digit max 0 n out (ltb→lt n 10 e) (omega arith)
      ∙ ap (λ (x : ℕ). parse_digits max x out) (omega arith))
  | inr e ↦ rw e (
      parse_digits-print_digits max f (n / 10) ((b'0' + n % 10) ∷ out) (omega arith) (ground arith)
      ∙ parse_digits-digit max (n / 10) (n % 10) out (omega arith) (omega arith)
      ∙ ap (λ (x : ℕ). parse_digits max x out) (omega arith))
]

Digits-parse_uint :
    (max : ℕ) (t : Text) → is_empty t ≡ false → Digits t → parse_uint max t ≡ parse_digits max 0 t
unfolding parse_uint is_ascii_digit
Digits-parse_uint max [] e h = absurd (ground arith)
Digits-parse_uint max (c ∷ []) e h = refl
Digits-parse_uint max (c ∷ d ∷ s) e h = ground arith

Digits-plain : (t : Text) → Digits t → all (λ c. not (is_whitespace c)) t ≡ true
unfolding is_whitespace is_ascii_digit
Digits-plain [] h = refl
Digits-plain (c ∷ t) h = ground (arith, Digits-plain t)

pub print_uint-IsWord : (n : ℕ) → IsWord (print_uint n)
print_uint-IsWord n = (
  print_uint-is_empty n,
  Digits-plain (print_uint n) (unfold print_uint in print_digits-Digits 20 n [] refl),
)

-- Numbers in the range of a type are read back.
pub parse_uint-print_uint :
    (max n : ℕ) → n ≤ max → n < 10 ^ 20 → parse_uint max (print_uint n) ≡ some n
unfolding print_uint parse_digits
parse_uint-print_uint max n h b =
    Digits-parse_uint max (print_uint n) (print_uint-is_empty n) (print_digits-Digits 20 n [] refl)
    ∙ parse_digits-print_digits max 20 n [] h b

pad_zeros-Digits : (k : ℕ) (t : Text) → Digits t → Digits (pad_zeros k t)
unfolding pad_zeros is_ascii_digit
pad_zeros-Digits zero t h = h
pad_zeros-Digits (suc k) t h = ground (arith, pad_zeros-Digits k t)

pad_zeros-is_empty : (k : ℕ) (t : Text) → is_empty t ≡ false → is_empty (pad_zeros k t) ≡ false
unfolding pad_zeros
pad_zeros-is_empty zero t h = h
pad_zeros-is_empty (suc k) t h = refl

pub print_padded-IsWord : (width n : ℕ) → IsWord (print_padded width n)
unfolding print_padded
print_padded-IsWord width n =
    let k = width - length (print_uint n) in
    (
      pad_zeros-is_empty k (print_uint n) (print_uint-is_empty n),
      Digits-plain (pad_zeros k (print_uint n)) (
          pad_zeros-Digits k (print_uint n)
            (unfold print_uint in print_digits-Digits 20 n [] refl)),
    )
