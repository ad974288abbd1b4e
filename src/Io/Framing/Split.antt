-- ===== src/Io/Framing/Split.antt =====
-- What one call of `next_sip_message` takes off the buffer.
use mathlib.Core.Path.{ap₂}
use gmv_pjsip.Prelude.{
  ℕ, ◌≤◌, ◌≡◌, sym, ap, ◌∙◌, ◌++◌, some, arith, length, take, drop, Bool-cases, Option-cases, inl,
  inr, ltb, take-append, drop-append, take-append-drop, length-append,
}
use gmv_pjsip.Text.{find}
use gmv_pjsip.Io.Framing.{Bytes, end_of_headers, body_length, message_len, framed, next_sip_message}
use gmv_pjsip.Io.Framing.Search.{find-bound, find-append}

-- The position of the empty line, and the cut behind it.
pub record Cut (b m r : Bytes) : Type 0 where
  pub header_end : ℕ
  pub found : find end_of_headers b ≡ some header_end
  pub fits : message_len header_end b ≤ length b
  pub front : m ≡ take (message_len header_end b) b
  pub rest : r ≡ drop (message_len header_end b) b

framed-Cut :
    (b m r : Bytes) (h : ℕ)
    → find end_of_headers b ≡ some h
    → framed (some h) b ≡ some (m, r)
    → Cut b m r
unfolding framed
framed-Cut b m r h e f = elim (Bool-cases (ltb (length b) (message_len h b))) [
  | inl short ↦ absurd (ground arith)
  | inr enough ↦ record {
    header_end = h;
    found = e;
    fits = ground arith;
    front = ground arith;
    rest = ground arith;
  }
]

pub next_sip_message-Cut : (b m r : Bytes) → next_sip_message b ≡ some (m, r) → Cut b m r
unfolding next_sip_message
next_sip_message-Cut b m r f = elim (Option-cases (find end_of_headers b)) [
  | inl e ↦ absurd (unfold framed in cc (rw e at f))
  | inr (h, e) ↦ framed-Cut b m r h e (rw e at f)
]

pub Cut-next_sip_message : {b m r : Bytes} → Cut b m r → next_sip_message b ≡ some (m, r)
unfolding next_sip_message framed
Cut-next_sip_message c = rw c.found (ground (arith, c.front, c.rest))

-- The headers that arrived do not change when more bytes arrive.
message_len-append : (h : ℕ) (b c : Bytes) → h ≤ length b → message_len h (b ++ c) ≡ message_len h b
unfolding message_len body_length
message_len-append h b c le = rw (take-append h b c le)

-- No byte is lost or made up: the message and the rest of the buffer are the buffer.
pub next_sip_message-concat : (b m r : Bytes) → next_sip_message b ≡ some (m, r) → m ++ r ≡ b
next_sip_message-concat b m r f =
    let c = next_sip_message-Cut b m r f in ap₂ ◌++◌ c.front c.rest ∙ take-append-drop _ b

-- A whole message is taken off just so when more bytes stand behind it.
pub next_sip_message-append :
    (b m r c : Bytes)
    → next_sip_message b ≡ some (m, r)
    → next_sip_message (b ++ c) ≡ some (m, r ++ c)
next_sip_message-append b m r c f =
    let k = next_sip_message-Cut b m r f in
    let room = find-bound end_of_headers b k.header_end k.found in
    let same = message_len-append k.header_end b c (omega arith) in
    Cut-next_sip_message (record {
      header_end = k.header_end;
      found = find-append end_of_headers b c k.header_end k.found;
      fits = rw same (omega (arith, k.fits, length-append b c));
      front = rw same (k.front ∙ sym (take-append _ b c k.fits));
      rest = rw same (ap (λ x. x ++ c) k.rest ∙ sym (drop-append _ b c k.fits));
    })
