-- ===== src/Gb28181/Sdp/Words.antt =====
-- Trimming and splitting of lines made of words.
use gmv_pjsip.Prelude.{
  ℕ, ◌≡◌, refl, true, false, not, [], ◌∷◌, ◌++◌, arith, is_empty, all, ◌==◌, ==_iff, Bool-cases,
  inl, inr,
}
use gmv_pjsip.Text.{
  Text, is_whitespace, trim_start_by, trim_end_by, trim_by, trim, split_by, non_empty,
  split_whitespace,
}
use gmv_pjsip.Gb28181.Sdp.Lines.{NoFeed}

-- Not empty, and with no white space.
abbrev pub IsWord : Text → Type 0
IsWord t = (is_empty t ≡ false) × (all (λ c. not (is_whitespace c)) t ≡ true)

abbrev pub Plain : Text → Type 0
Plain t = all (λ c. not (is_whitespace c)) t ≡ true

feed-is_whitespace : (c : ℕ) → is_whitespace c ≡ false → (c == b'\n') ≡ false
feed-is_whitespace c h = elim (Bool-cases (c == b'\n')) [
  | inr e ↦ e
  | inl e ↦
      let feed = (==_iff c b'\n').0 e in
      let blank : is_whitespace c ≡ true = rw feed (unfold is_whitespace in refl) in absurd cc
]

pub Plain-NoFeed : (t : Text) → Plain t → NoFeed t
Plain-NoFeed [] h = refl
Plain-NoFeed (c ∷ t) h = ground (arith, Plain-NoFeed t, feed-is_whitespace c)

trim_end-word : (t : Text) → Plain t → trim_end_by is_whitespace t ≡ t
unfolding trim_end_by
trim_end-word [] h = refl
trim_end-word (c ∷ t) h = ground (arith, trim_end-word t)

trim_end-append :
    (s t : Text)
    → is_empty t ≡ false
    → trim_end_by is_whitespace t ≡ t
    → (trim_end_by is_whitespace (s ++ t) ≡ s ++ t) × (is_empty (s ++ t) ≡ false)
unfolding trim_end_by
trim_end-append [] t e h = (h, e)
trim_end-append (c ∷ s) t e h =
    let (same, full) = trim_end-append s t e h in (rw (same, full) refl, refl)

-- A line that starts with a visible character and ends in a word is trimmed already.
pub trim-line :
    (c : ℕ) (s t : Text) → is_whitespace c ≡ false → IsWord t → trim (c ∷ (s ++ t)) ≡ c ∷ (s ++ t)
unfolding trim trim_by trim_start_by
trim-line c s t v w = rw v ((trim_end-append (c ∷ s) t w.0 (trim_end-word t w.1)).0)

split_by-word : (t : Text) → Plain t → split_by is_whitespace t ≡ t ∷ []
unfolding split_by
split_by-word [] h = refl
split_by-word (c ∷ t) h = ground (arith, split_by-word t)

split_by-words :
    (t rest : Text)
    → Plain t
    → split_by is_whitespace (t ++ (b' ' ∷ rest)) ≡ t ∷ split_by is_whitespace rest
unfolding split_by
split_by-words [] rest h = unfold is_whitespace in refl
split_by-words (c ∷ t) rest h = ground (arith, split_by-words t rest)

pub split_whitespace-word : (t : Text) → IsWord t → split_whitespace t ≡ t ∷ []
unfolding split_whitespace non_empty
split_whitespace-word t w = rw (split_by-word t w.1) (rw w.0 refl)

pub split_whitespace-words :
    (t rest : Text) → IsWord t → split_whitespace (t ++ (b' ' ∷ rest)) ≡ t ∷ split_whitespace rest
unfolding split_whitespace non_empty
split_whitespace-words t rest w = rw (split_by-words t rest w.1) (rw w.0 refl)

-- The first character of a trimmed line stays, if it is visible.
pub trim-visible :
    (c : ℕ) (s : Text) → is_whitespace c ≡ false → trim (c ∷ s) ≡ c ∷ trim_end_by is_whitespace s
unfolding trim trim_by trim_start_by trim_end_by
trim-visible c s v = ground (arith, v)
