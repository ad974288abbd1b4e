-- ===== src/Io/Framing/Messages.antt =====
-- Streams of well-formed messages come out of the framing as they went in.
use gmv_pjsip.Prelude.{
  take-length, drop-length, ℕ, suc, ◌+◌, ◌%◌, ◌<◌, ◌≡◌, ◌⊎◌, refl, sym, ap, List, [], ◌∷◌, ◌++◌,
  none, some, arith, length, inl, inr, length-append, append_assoc, map,
}
use gmv_pjsip.Text.{find}
use gmv_pjsip.Io.Framing.{
  Bytes, usize_mod, or_zero, end_of_headers, content_length, body_length, message_len,
  next_sip_message, read_chunks,
}
use gmv_pjsip.Io.Framing.Split.{Cut-next_sip_message}
use gmv_pjsip.Io.Framing.Search.{find-append}
use gmv_pjsip.Io.Framing.Chunks.{
  flatten, Drains, stop, take_off, Drains-drain_messages, read_chunks-drain_messages,
}

pub record SipMessage : Type 0 where
  pub headers : Bytes
  pub body : Bytes

abbrev pub encode : SipMessage → Bytes
encode m = (m.headers ++ end_of_headers) ++ m.body

-- The first empty line ends the headers, and they announce the length of the body; a message with no
-- body may leave that out.
pub record IsFramed (m : SipMessage) : Type 0 where
  pub first_empty_line : find end_of_headers (m.headers ++ end_of_headers) ≡ some (length m.headers)
  pub announced :
      (content_length m.headers ≡ some (length m.body))
      ⊎ ((content_length m.headers ≡ none) × (m.body ≡ []))
  pub in_range : length m.headers + 4 + length m.body < usize_mod

length-encode : (m : SipMessage) → length (encode m) ≡ length m.headers + 4 + length m.body
length-encode m = omega (
  arith,
  length-append (m.headers ++ end_of_headers) m.body,
  length-append m.headers end_of_headers,
)

encode-front :
    (m : SipMessage) (rest : Bytes)
    → encode m ++ rest ≡ m.headers ++ (end_of_headers ++ (m.body ++ rest))
encode-front m rest = simp append_assoc

message_len-encode :
    (m : SipMessage) (rest : Bytes)
    → IsFramed m
    → message_len (length m.headers) (encode m ++ rest) ≡ length (encode m)
unfolding message_len body_length
message_len-encode m rest f =
    rw (encode-front m rest, take-length m.headers (end_of_headers ++ (m.body ++ rest)))
      (announced_length f.announced)
  where
    announced_length :
        (content_length m.headers ≡ some (length m.body))
          ⊎ ((content_length m.headers ≡ none) × (m.body ≡ []))
        → (length m.headers + 4 + or_zero (content_length m.headers)) % usize_mod
          ≡ length (encode m)
    announced_length (inl e) = rw e (omega (arith, length-encode m, f.in_range))
    announced_length (inr (e, none_left)) =
        rw e (omega (arith, length-encode m, f.in_range, ap length none_left))

-- A well-formed message at the front of the buffer is taken off whole, whatever stands behind it.
pub next_sip_message-encode :
    (m : SipMessage) (rest : Bytes)
    → IsFramed m
    → next_sip_message (encode m ++ rest) ≡ some (encode m, rest)
next_sip_message-encode m rest f =
    let len = message_len-encode m rest f in
    Cut-next_sip_message (record {
      header_end = length m.headers;
      found = rw (append_assoc (m.headers ++ end_of_headers)) (
          find-append end_of_headers (m.headers ++ end_of_headers) (m.body ++ rest)
            (length m.headers) f.first_empty_line);
      fits = rw len (omega (arith, length-append (encode m) rest));
      front = rw len (sym (take-length (encode m) rest));
      rest = rw len (sym (drop-length (encode m) rest));
    })

abbrev pub AllFramed : List SipMessage → Type 0
AllFramed [] = Unit {0}
AllFramed (m ∷ ms) = IsFramed m × AllFramed ms

encoded-Drains :
    (ms : List SipMessage) (tail : Bytes)
    → AllFramed ms
    → next_sip_message tail ≡ none
    → Drains (flatten (map encode ms) ++ tail) (map encode ms) tail
encoded-Drains [] tail f e = stop e
encoded-Drains (m ∷ ms) tail f e = rw (append_assoc (encode m)) (
    take_off (next_sip_message-encode m (flatten (map encode ms) ++ tail) f.0)
      (encoded-Drains ms tail f.1 e))

length-encoded : (ms : List SipMessage) → length (map encode ms) ≡ length ms
length-encoded [] = refl
length-encoded (m ∷ ms) = ap suc (length-encoded ms)

-- Well-formed messages, followed by a beginning that is no whole message, come out of the read loop
-- one by one and unchanged, wherever the socket cuts the stream; the beginning stays in the buffer.
-- The fuel has to exceed the number of the messages.
pub read_chunks-encode :
    (ms : List SipMessage) (tail : Bytes) (chunks : List Bytes) (fuel : ℕ)
    → AllFramed ms
    → next_sip_message tail ≡ none
    → flatten chunks ≡ flatten (map encode ms) ++ tail
    → length ms < fuel
    → read_chunks fuel [] chunks ≡ some (map encode ms, tail)
read_chunks-encode ms tail chunks fuel f e cut lt =
    read_chunks-drain_messages chunks fuel fuel (map encode ms) tail
      (rw cut (Drains-drain_messages fuel enough (encoded-Drains ms tail f e))) enough
  where
    enough : length (map encode ms) < fuel
    enough = omega (arith, length-encoded ms)
