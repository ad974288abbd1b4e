-- ===== src/Io/Framing/Search.antt =====
-- The search for the empty line behind the headers: a hit stays where it is when bytes arrive.
use gmv_pjsip.Prelude.{
  ℕ, suc, ◌+◌, ◌≤◌, ◌≡◌, refl, true, false, [], ◌∷◌, ◌++◌, some, arith, length, Bool-cases,
  Option-cases, inl, inr, ◌⊎◌,
}
use gmv_pjsip.Text.{Text, starts_with, find}

pub starts_with-append :
    (pat s t : Text) → starts_with pat s ≡ true → starts_with pat (s ++ t) ≡ true
unfolding starts_with
starts_with-append [] s t h = refl
starts_with-append (p ∷ pat) [] t h = cc
starts_with-append (p ∷ pat) (c ∷ s) t h = ground (arith, starts_with-append pat s t)

pub starts_with-length : (pat s : Text) → starts_with pat s ≡ true → length pat ≤ length s
unfolding starts_with
starts_with-length [] s h = omega arith
starts_with-length (p ∷ pat) [] h = cc
starts_with-length (p ∷ pat) (c ∷ s) h = ground (arith, starts_with-length pat s)

-- Where the text is long enough, more text behind it does not matter.
pub starts_with-append_long :
    (pat s t : Text) → length pat ≤ length s → starts_with pat (s ++ t) ≡ starts_with pat s
unfolding starts_with
starts_with-append_long [] s t h = refl
starts_with-append_long (p ∷ pat) [] t h = elim h [ ]
starts_with-append_long (p ∷ pat) (c ∷ s) t h =
    ground (arith, starts_with-append_long pat s t (omega arith))

-- A hit behind the first character is a hit in the rest.
find-cons :
    (pat : Text) (c : ℕ) (s : Text) (i : ℕ)
    → find pat (c ∷ s) ≡ some i
    → ((starts_with pat (c ∷ s) ≡ true) × (i ≡ 0))
      ⊎ ((j : ℕ) × (starts_with pat (c ∷ s) ≡ false) × (find pat s ≡ some j) × (i ≡ suc j))
unfolding find
find-cons pat c s i h = elim (Bool-cases (starts_with pat (c ∷ s))) [
  | inl hit ↦ inl (hit, ground arith)
  | inr miss ↦ elim (Option-cases (find pat s)) [
    | inl e ↦ absurd (ground arith)
    | inr (j, e) ↦ inr (j, miss, e, ground arith)
  ]
]

-- A hit lies inside the text.
pub find-bound : (pat s : Text) (i : ℕ) → find pat s ≡ some i → i + length pat ≤ length s
find-bound [] [] i h = unfold find in ground arith
find-bound (p ∷ pat) [] i h = unfold find in cc
find-bound pat (c ∷ s) i h = elim (find-cons pat c s i h) [
  | inl (hit, e) ↦ rw e (omega (arith, starts_with-length pat (c ∷ s) hit))
  | inr (j, miss, e, e') ↦ rw e' (omega (arith, find-bound pat s j e))
]

-- The first hit stays the first hit when more text comes behind it.
pub find-append : (pat s t : Text) (i : ℕ) → find pat s ≡ some i → find pat (s ++ t) ≡ some i
unfolding find
find-append (p ∷ pat) [] t i h = cc
find-append [] [] [] i h = h
find-append [] [] (c ∷ t) i h = h
find-append pat (c ∷ s) t i h = elim (find-cons pat c s i h) [
  | inl (hit, e) ↦ rw (starts_with-append pat (c ∷ s) t hit, e)
  | inr (j, miss, e, e') ↦
      let room = find-bound pat s j e in
      let same = starts_with-append_long pat (c ∷ s) t (omega arith) in
      rw (same, miss, find-append pat s t j e, e')
]
