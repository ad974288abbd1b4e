-- ===== src/Text/Utf8/Ascii.antt =====
-- UTF-8 on texts of ASCII characters, and on byte sequences that are not empty.
use gmv_pjsip.Prelude.{
  ℕ, ◌≡◌, refl, ap, Bool, true, false, List, [], ◌∷◌, ◌++◌, arith, ltb, all, contains, is_empty,
}
use gmv_pjsip.Text.Chars.{Text}
use gmv_pjsip.Text.Utf8.{scalar, front, byte_count, decode_lossy, from_utf8_lossy, encode, as_bytes}

abbrev pub is_ascii : Text → Bool
is_ascii = all (λ c. ltb c 0x80)

pub is_ascii-append :
    (s t : Text) → is_ascii s ≡ true → is_ascii t ≡ true → is_ascii (s ++ t) ≡ true
is_ascii-append [] t h k = k
is_ascii-append (c ∷ s) t h k = ground (arith, is_ascii-append s t)

as_bytes-is_ascii : (t : Text) → is_ascii t ≡ true → as_bytes t ≡ t
unfolding as_bytes encode
as_bytes-is_ascii [] h = refl
as_bytes-is_ascii (c ∷ t) h = ground (arith, as_bytes-is_ascii t)

front-is_ascii : (a : ℕ) (s : Text) → ltb a 0x80 ≡ true → front a s ≡ scalar a s
unfolding front
front-is_ascii a s h = rw h

decode_lossy-is_ascii : (t : Text) → is_ascii t ≡ true → decode_lossy (byte_count t) t ≡ t
unfolding decode_lossy
decode_lossy-is_ascii [] h = refl
decode_lossy-is_ascii (c ∷ t) h =
    let small : ltb c 0x80 ≡ true = ground arith in
    let later : is_ascii t ≡ true = ground arith in
    rw (front-is_ascii c t small, decode_lossy) (ap (◌∷◌ c) (decode_lossy-is_ascii t later))

-- A text of ASCII characters is its own bytes, and is read back from them.
pub from_utf8_lossy-as_bytes : (t : Text) → is_ascii t ≡ true → from_utf8_lossy (as_bytes t) ≡ t
unfolding from_utf8_lossy
from_utf8_lossy-as_bytes t h = rw (as_bytes-is_ascii t h) (decode_lossy-is_ascii t h)

-- Every byte sequence but the empty one stands for some text.
pub from_utf8_lossy-is_empty :
    (bytes : List ℕ) → is_empty bytes ≡ false → is_empty (from_utf8_lossy bytes) ≡ false
unfolding from_utf8_lossy decode_lossy
from_utf8_lossy-is_empty [] h = absurd (ground arith)
from_utf8_lossy-is_empty (a ∷ s) h = ground arith

-- A line feed is a byte of its own.
pub as_bytes-contains_feed :
    (t : Text) → contains b'\n' (as_bytes t) ≡ false → contains b'\n' t ≡ false
unfolding as_bytes encode
as_bytes-contains_feed [] h = refl
as_bytes-contains_feed (c ∷ t) h = ground (arith, as_bytes-contains_feed t)
