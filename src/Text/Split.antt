-- ===== src/Text/Split.antt =====
-- Splitting and searching.
use gmv_pjsip.Prelude.{
  ℕ, suc, Bool, true, false, ◌&&◌, List, [], ◌∷◌, Option, none, some, ◌==◌, if◌then◌else◌, is_empty,
}
use gmv_pjsip.Text.Chars.{Text, is_whitespace}

-- The text up to the first `sep`, and what follows it.
unfoldable pub split_once : ℕ → Text → Option (Text × Text)
split_once sep [] = none
split_once sep (c ∷ s) = elim (c == sep) [
  | true ↦ some ([], s)
  | false ↦ elim (split_once sep s) [ none ↦ none | some (a, b) ↦ some (c ∷ a, b) ]
]

-- Puts a character in front of the first part.
abbrev pub push_front : ℕ → List Text → List Text
push_front c [] = (c ∷ []) ∷ []
push_front c (p ∷ ps) = (c ∷ p) ∷ ps

-- `s.split(sep)`: one part more than there are separators
unfoldable pub split_by : (ℕ → Bool) → Text → List Text
split_by sep [] = [] ∷ []
split_by sep (c ∷ s) = let rest = split_by sep s in if sep c then [] ∷ rest else push_front c rest

unfoldable pub split : ℕ → Text → List Text
unfolding split_by
split sep = split_by (λ c. c == sep)

unfoldable pub non_empty : List Text → List Text
non_empty [] = []
non_empty (p ∷ ps) = if is_empty p then non_empty ps else p ∷ non_empty ps

unfoldable pub split_whitespace : Text → List Text
unfolding split_by non_empty is_whitespace
split_whitespace s = non_empty (split_by is_whitespace s)

unfoldable pub strip_prefix : Text → Text → Option Text
strip_prefix [] s = some s
strip_prefix (p ∷ ps) [] = none
strip_prefix (p ∷ ps) (c ∷ s) = if c == p then strip_prefix ps s else none

unfoldable pub starts_with : Text → Text → Bool
starts_with [] s = true
starts_with (p ∷ ps) [] = false
starts_with (p ∷ ps) (c ∷ s) = c == p && starts_with ps s

-- The position of the first occurrence of a text (`str::find`, `windows(n).position`).
unfoldable pub find : Text → Text → Option ℕ
unfolding starts_with
find pat [] = if is_empty pat then some 0 else none
find pat (c ∷ s) =
    let later = find pat s in
    if starts_with pat (c ∷ s) then some 0 else elim later [ none ↦ none | some i ↦ some (suc i) ]

-- A line that ended in "\n" loses one "\r" in front of it.
unfoldable pub strip_cr : Text → Text
strip_cr [] = []
strip_cr (c ∷ []) = if c == b'\r' then [] else c ∷ []
strip_cr (c ∷ d ∷ s) = c ∷ strip_cr (d ∷ s)

unfoldable pub lines_of : List Text → List Text
unfolding strip_cr
lines_of [] = []
lines_of (l ∷ []) = if is_empty l then [] else l ∷ []
lines_of (l ∷ m ∷ ls) = strip_cr l ∷ lines_of (m ∷ ls)

-- `str::lines`: a last line with no "\n" keeps its "\r", and is left out if it is empty.
unfoldable pub lines : Text → List Text
unfolding split lines_of
lines s = lines_of (split b'\n' s)
