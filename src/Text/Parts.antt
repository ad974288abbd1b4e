-- ===== src/Text/Parts.antt =====
-- Splitting a text that was put together from its parts.
use gmv_pjsip.Prelude.{ℕ, ◌≡◌, refl, false, [], ◌∷◌, ◌++◌, some, arith, contains}
use gmv_pjsip.Text.Chars.{Text}
use gmv_pjsip.Text.Split.{split_once, split, split_by}

pub split_once-append :
    (c : ℕ) (s t : Text) → contains c s ≡ false → split_once c (s ++ (c ∷ t)) ≡ some (s, t)
unfolding split_once
split_once-append c [] t h = ground arith
split_once-append c (x ∷ s) t h = ground (arith, split_once-append c s t)

pub split-plain : (c : ℕ) (s : Text) → contains c s ≡ false → split c s ≡ s ∷ []
unfolding split split_by
split-plain c [] h = refl
split-plain c (x ∷ s) h = ground (arith, split-plain c s)

pub split-part :
    (c : ℕ) (s t : Text) → contains c s ≡ false → split c (s ++ (c ∷ t)) ≡ s ∷ split c t
unfolding split split_by
split-part c [] t h = ground arith
split-part c (x ∷ s) t h = ground (arith, split-part c s t)
