-- ===== src/Text/Utf8.antt =====
-- UTF-8 (`std::str::from_utf8`, `String::from_utf8_lossy`).
pub mod Ascii
use gmv_pjsip.Prelude.{
  ℕ, suc, zero, ◌+◌, ◌-◌, ◌*◌, ◌/◌, ◌%◌, ◌++◌, ◌≡◌, refl, arith, is_empty, Bool, ◌&&◌, List, [],
  ◌∷◌, Option, none, some, leb, ltb, ◌==◌, if◌then◌else◌,
}
use gmv_pjsip.Text.Chars.{Text}

abbrev within : ℕ → ℕ → ℕ → Bool
within lo hi c = leb lo c && leb c hi

-- What stands at the front of a byte sequence: a code point, or a maximal ill-formed part, each with
-- the bytes behind it.
pub data Front : Type 0 where
  scalar : ℕ → Text → Front
  invalid : Text → Front

abbrev tail_byte : ℕ → Bool
tail_byte = within 0x80 0xbf

two : ℕ → Text → Front
two a [] = invalid []
two a (b ∷ s) = if tail_byte b then scalar ((a - 0xc0) * 64 + (b - 0x80)) s else invalid (b ∷ s)

-- The last byte of three, behind `v`.
last_of_three : ℕ → Text → Front
last_of_three v [] = invalid []
last_of_three v (c ∷ s) = if tail_byte c then scalar (v * 64 + (c - 0x80)) s else invalid (c ∷ s)

-- The second byte must lie within `lo` and `hi`.
three : ℕ → ℕ → ℕ → Text → Front
unfolding last_of_three
three lo hi a [] = invalid []
three lo hi a (b ∷ s) =
    if within lo hi b then last_of_three ((a - 0xe0) * 64 + (b - 0x80)) s else invalid (b ∷ s)

third_of_four : ℕ → Text → Front
unfolding last_of_three
third_of_four v [] = invalid []
third_of_four v (c ∷ s) =
    if tail_byte c then last_of_three (v * 64 + (c - 0x80)) s else invalid (c ∷ s)

four : ℕ → ℕ → ℕ → Text → Front
unfolding third_of_four
four lo hi a [] = invalid []
four lo hi a (b ∷ s) =
    if within lo hi b then third_of_four ((a - 0xf0) * 64 + (b - 0x80)) s else invalid (b ∷ s)

front : ℕ → Text → Front
unfolding two three four
front a s =
    if ltb a 0x80
    then scalar a s
    else if within 0xc2 0xdf a
    then two a s
    else if a == 0xe0
    then three 0xa0 0xbf a s
    else if a == 0xed
    then three 0x80 0x9f a s
    else if within 0xe1 0xef a
    then three 0x80 0xbf a s
    else if a == 0xf0
    then four 0x90 0xbf a s
    else if within 0xf1 0xf3 a
    then four 0x80 0xbf a s
    else if a == 0xf4
    then four 0x80 0x8f a s
    else invalid s

-- The fuel is the number of bytes, of which each round takes at least one.
decode : ℕ → Text → Option Text
unfolding front
decode zero s = some []
decode (suc f) [] = some []
decode (suc f) (a ∷ s) = elim (front a s) [
  | scalar c rest ↦ elim (decode f rest) [ none ↦ none | some t ↦ some (c ∷ t) ]
  | invalid rest ↦ none
]

decode_lossy : ℕ → Text → Text
unfolding front
decode_lossy zero s = []
decode_lossy (suc f) [] = []
decode_lossy (suc f) (a ∷ s) = elim (front a s) [
  | scalar c rest ↦ c ∷ decode_lossy f rest
  | invalid rest ↦ 0xfffd ∷ decode_lossy f rest
]

abbrev byte_count : Text → ℕ
byte_count [] = 0
byte_count (b ∷ s) = suc (byte_count s)

unfoldable pub from_utf8 : List ℕ → Option Text
unfolding decode
from_utf8 s = decode (byte_count s) s

unfoldable pub from_utf8_lossy : List ℕ → Text
unfolding decode_lossy
from_utf8_lossy s = decode_lossy (byte_count s) s

-- The bytes of one code point.
encode : ℕ → List ℕ
encode c =
    if ltb c 0x80
    then c ∷ []
    else if ltb c 0x800
    then (0xc0 + c / 64) ∷ (0x80 + c % 64) ∷ []
    else if ltb c 0x10000
    then (0xe0 + c / 4096) ∷ (0x80 + c / 64 % 64) ∷ (0x80 + c % 64) ∷ []
    else (0xf0 + c / 262144) ∷ (0x80 + c / 4096 % 64) ∷ (0x80 + c / 64 % 64) ∷ (0x80 + c % 64) ∷ []

-- `str::as_bytes`
unfoldable pub as_bytes : Text → List ℕ
unfolding encode
as_bytes [] = []
as_bytes (c ∷ t) = encode c ++ as_bytes t

pub as_bytes-is_empty : (t : Text) → is_empty (as_bytes t) ≡ is_empty t
unfolding as_bytes
as_bytes-is_empty [] = refl
as_bytes-is_empty (c ∷ t) = ground arith
