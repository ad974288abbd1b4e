-- ===== src/Text/Chars.antt =====
-- Characters, trimming, ASCII case and equality of texts.
use Prim.Native.Char.{code}
use Prim.Native.String.{String}
use gmv_pjsip.Prelude.{
  ℕ, ◌+◌, ◌-◌, ◌≡◌, ◌↔◌, Bool, true, false, ◌&&◌, ◌||◌, List, [], ◌∷◌, map, arith, leb, ◌==◌,
  if◌then◌else◌, is_empty,
}

abbrev pub Text : Type 0
Text = List ℕ

-- The code points of a literal.
abbrev pub codes : String → Text
codes String.[] = []
codes (String.◌∷◌ c s) = code c ∷ codes s

abbrev within : ℕ → ℕ → ℕ → Bool
within lo hi c = leb lo c && leb c hi

-- `char::is_whitespace`: the code points with the property White_Space.
unfoldable pub is_whitespace : ℕ → Bool
is_whitespace c =
    within 9 13 c
    || c == 0x20
    || c == 0x85
    || c == 0xa0
    || c == 0x1680
    || within 0x2000 0x200a c
    || within 0x2028 0x2029 c
    || c == 0x202f
    || c == 0x205f
    || c == 0x3000

unfoldable pub is_ascii_digit : ℕ → Bool
is_ascii_digit c = within b'0' b'9' c

-- `u8::to_ascii_uppercase`, `u8::to_ascii_lowercase`
unfoldable pub to_upper : ℕ → ℕ
to_upper c = if within b'a' b'z' c then c - 32 else c

unfoldable pub to_lower : ℕ → ℕ
to_lower c = if within b'A' b'Z' c then c + 32 else c

unfoldable pub to_ascii_uppercase : Text → Text
unfolding to_upper
to_ascii_uppercase = map to_upper

unfoldable pub to_ascii_lowercase : Text → Text
unfolding to_lower
to_ascii_lowercase = map to_lower

pub to_upper_idem : (c : ℕ) → to_upper (to_upper c) ≡ to_upper c
unfolding to_upper
to_upper_idem c = ground arith

-- `s == t`
unfoldable pub eq_text : Text → Text → Bool
eq_text [] [] = true
eq_text (x ∷ s) (y ∷ t) = x == y && eq_text s t
eq_text _ _ = false

pub eq_text_iff : (s t : Text) → (eq_text s t ≡ true) ↔ (s ≡ t)
unfolding eq_text
eq_text_iff (x ∷ s) (y ∷ t) = ground (arith, eq_text_iff s t)
eq_text_iff _ _ = ground arith

unfoldable pub eq_ignore_ascii_case : Text → Text → Bool
unfolding eq_text to_ascii_lowercase
eq_ignore_ascii_case s t = eq_text (to_ascii_lowercase s) (to_ascii_lowercase t)

-- `trim_start_matches`, `trim_end_matches` with a test on characters
unfoldable pub trim_start_by : (ℕ → Bool) → Text → Text
trim_start_by p [] = []
trim_start_by p (c ∷ s) = let rest = trim_start_by p s in if p c then rest else c ∷ s

unfoldable pub trim_end_by : (ℕ → Bool) → Text → Text
trim_end_by p [] = []
trim_end_by p (c ∷ s) = let rest = trim_end_by p s in if is_empty rest && p c then [] else c ∷ rest

unfoldable pub trim_by : (ℕ → Bool) → Text → Text
unfolding trim_start_by trim_end_by
trim_by p s = trim_end_by p (trim_start_by p s)

-- `str::trim`, and `trim_matches('"')`
unfoldable pub trim : Text → Text
unfolding trim_by is_whitespace
trim = trim_by is_whitespace

unfoldable pub trim_quotes : Text → Text
unfolding trim_by
trim_quotes = trim_by (λ c. c == b'"')
