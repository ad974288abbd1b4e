-- ===== src/Gb28181/Sdp/Lines.antt =====
-- The lines that src/gb28181/sdp.rs writes are the lines that it reads.
use gmv_pjsip.Prelude.{
  ℕ, ◌≡◌, refl, ap, ◌∙◌, false, List, [], ◌∷◌, ◌++◌, arith, contains, is_empty, append_assoc,
}
use gmv_pjsip.Text.{Text, split, split_by, push_front, strip_cr, lines_of, lines}
use gmv_pjsip.Gb28181.Sdp.{crlf_lines}

abbrev pub NoFeed : Text → Type 0
NoFeed t = contains b'\n' t ≡ false

abbrev pub NoFeeds : List Text → Type 0
NoFeeds [] = Unit {0}
NoFeeds (t ∷ ts) = NoFeed t × NoFeeds ts

pub NoFeed-append : (s t : Text) → NoFeed s → NoFeed t → NoFeed (s ++ t)
NoFeed-append [] t h g = g
NoFeed-append (c ∷ s) t h g = ground (arith, NoFeed-append s t)

split-line : (l rest : Text) → NoFeed l → split b'\n' (l ++ (b'\n' ∷ rest)) ≡ l ∷ split b'\n' rest
unfolding split split_by
split-line [] rest h = refl
split-line (c ∷ l) rest h = ground (arith, split-line l rest)

push_front-is_empty : (c : ℕ) (ps : List Text) → is_empty (push_front c ps) ≡ false
push_front-is_empty c [] = refl
push_front-is_empty c (p ∷ ps) = refl

split-is_empty : (s : Text) → is_empty (split b'\n' s) ≡ false
unfolding split split_by
split-is_empty [] = refl
split-is_empty (c ∷ s) = ground (arith, push_front-is_empty c (split b'\n' s))

strip_cr-append : (l : Text) → strip_cr (l ++ (b'\r' ∷ [])) ≡ l
unfolding strip_cr
strip_cr-append [] = refl
strip_cr-append (c ∷ []) = refl
strip_cr-append (c ∷ d ∷ l) = ap (◌∷◌ c) (strip_cr-append (d ∷ l))

lines_of-cons :
    (l : Text) (ps : List Text) → is_empty ps ≡ false → lines_of (l ∷ ps) ≡ strip_cr l ∷ lines_of ps
unfolding lines_of
lines_of-cons l [] h = absurd (ground arith)
lines_of-cons l (p ∷ ps) h = refl

lines-cons : (l rest : Text) → NoFeed l → lines (l ++ (b'\r' ∷ b'\n' ∷ rest)) ≡ l ∷ lines rest
unfolding lines
lines-cons l rest h =
    let ended = NoFeed-append l (b'\r' ∷ []) h refl in
    let parts = split-line (l ++ (b'\r' ∷ [])) rest ended in
    let same : split b'\n' (l ++ (b'\r' ∷ b'\n' ∷ rest)) ≡ (l ++ (b'\r' ∷ [])) ∷ split b'\n' rest =
      rw (append_assoc l (b'\r' ∷ []) (b'\n' ∷ rest)) at parts in
    ap lines_of same
    ∙ lines_of-cons (l ++ (b'\r' ∷ [])) (split b'\n' rest) (split-is_empty rest)
    ∙ ap (λ (x : Text). x ∷ lines_of (split b'\n' rest)) (strip_cr-append l)

pub lines-crlf_lines : (ls : List Text) → NoFeeds ls → lines (crlf_lines ls) ≡ ls
unfolding crlf_lines
lines-crlf_lines [] h = unfold lines split split_by lines_of in refl
lines-crlf_lines (l ∷ ls) h =
    lines-cons l (crlf_lines ls) h.0 ∙ ap (◌∷◌ l) (lines-crlf_lines ls h.1)
