-- ===== src/Io/Framing/Progress.antt =====
-- When the loop that takes messages off the buffer ends.
use gmv_pjsip.Prelude.{
  ℕ, suc, zero, ◌+◌, ◌<◌, ◌≡◌, refl, sym, ap, ◌∙◌, Bool, true, ◌&&◌, List, [], ◌∷◌, none, some,
  arith, length, drop, Option-cases, inl, inr, length-drop, ltb,
}
use gmv_pjsip.Text.{find}
use gmv_pjsip.Io.Framing.{
  Bytes, usize_mod, end_of_headers, body_length, message_len, framed, next_sip_message,
  drain_messages,
}
use gmv_pjsip.Io.Framing.Split.{next_sip_message-Cut}

-- Wherever in the stream a header block is read from, the length of the message it announces is
-- below 2^64.
abbrev pub LengthsFit : Bytes → Type 0
LengthsFit b =
    (k h : ℕ)
    → find end_of_headers (drop k b) ≡ some h
    → h + 4 + body_length h (drop k b) < usize_mod

-- The same as a test, by which it is checked of a given stream.
fits_at : Bytes → Bool
fits_at b = elim (find end_of_headers b) [
  | none ↦ true
  | some h ↦ ltb (h + 4 + body_length h b) usize_mod
]

unfoldable pub lengths_fit : Bytes → Bool
unfolding fits_at
lengths_fit [] = true
lengths_fit (x ∷ b) = fits_at (x ∷ b) && lengths_fit b

lengths_fit-LengthsFit_at :
    (k : ℕ) (b : Bytes) (h : ℕ)
    → lengths_fit b ≡ true
    → find end_of_headers (drop k b) ≡ some h
    → h + 4 + body_length h (drop k b) < usize_mod
unfolding lengths_fit
lengths_fit-LengthsFit_at zero [] h f e = absurd (unfold find in cc)
lengths_fit-LengthsFit_at zero (x ∷ b) h f e = ground arith
lengths_fit-LengthsFit_at (suc k) [] h f e = absurd (unfold find in cc)
lengths_fit-LengthsFit_at (suc k) (x ∷ b) h f e = lengths_fit-LengthsFit_at k b h (ground arith) e

pub lengths_fit-LengthsFit : (b : Bytes) → lengths_fit b ≡ true → LengthsFit b
lengths_fit-LengthsFit b f k h e = lengths_fit-LengthsFit_at k b h f e

drop-nil : (k : ℕ) → drop {A = ℕ} k [] ≡ []
drop-nil zero = refl
drop-nil (suc k) = refl

drop-drop : (j k : ℕ) (b : Bytes) → drop k (drop j b) ≡ drop (j + k) b
drop-drop zero k b = ap (λ n. drop n b) (omega arith)
drop-drop (suc j) k [] = drop-nil k ∙ sym (drop-nil (suc j + k))
drop-drop (suc j) k (x ∷ b) =
    let e : suc (j + k) ≡ suc j + k = omega arith in drop-drop j k b ∙ ap (λ n. drop n (x ∷ b)) e

LengthsFit-drop : (j : ℕ) (b : Bytes) → LengthsFit b → LengthsFit (drop j b)
LengthsFit-drop j b f k h e = rw drop-drop (f (j + k) h (rw (← drop-drop j k b) e))

-- Each message is at least as long as the empty line.
next_sip_message_shorter :
    (b m r : Bytes)
    → LengthsFit b
    → next_sip_message b ≡ some (m, r)
    → (length r < length b) × LengthsFit r
unfolding message_len
next_sip_message_shorter b m r f e =
    let c = next_sip_message-Cut b m r e in
    let fit = f 0 c.header_end c.found in
    (
      omega (arith, ap length c.rest, length-drop (message_len c.header_end b) b, c.fits, fit),
      rw c.rest (LengthsFit-drop _ b f),
    )

-- Where no announced length exceeds the machine's numbers, the loop ends: one more round than the
-- buffer has bytes is enough.
pub drain_messages-total :
    (fuel : ℕ) (b : Bytes)
    → length b < fuel
    → LengthsFit b
    → (ms : List Bytes) × (r : Bytes) × (drain_messages fuel b ≡ some (ms, r))
unfolding drain_messages
drain_messages-total zero b h f = absurd (omega arith)
drain_messages-total (suc n) b h f = elim (Option-cases (next_sip_message b)) [
  | inl e ↦ ([], b, rw (e, drain_messages))
  | inr ((m, r), e) ↦
      let (shorter, f') = next_sip_message_shorter b m r f e in
      let (ms, left, done) = drain_messages-total n r (omega arith) f' in
      (m ∷ ms, left, rw (e, drain_messages) (rw done))
]

-- A header block whose announced length comes to exactly 2^64 is never taken off the buffer: each
-- call hands out an empty message and leaves the buffer as it is, and the loop does not end.
pub drain_messages_stalls :
    (b : Bytes) (h : ℕ)
    → find end_of_headers b ≡ some h
    → h + 4 + body_length h b ≡ usize_mod
    → (next_sip_message b ≡ some ([], b)) × ((fuel : ℕ) → drain_messages fuel b ≡ none)
unfolding drain_messages
drain_messages_stalls b h e s = (stuck, rounds)
  where
    nothing : message_len h b ≡ 0
    nothing = unfold message_len in rw s

    stuck : next_sip_message b ≡ some ([], b)
    stuck = unfold next_sip_message framed in rw (e, nothing) (ground arith)

    rounds : (fuel : ℕ) → drain_messages fuel b ≡ none
    rounds zero = refl
    rounds (suc n) = rw (stuck, drain_messages) (rw (rounds n))
