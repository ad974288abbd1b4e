-- ===== src/Io/Framing.antt =====
-- `next_sip_message` and `content_length` of src/io.rs, and the loop of `handle_tcp_stream` that
-- takes whole messages off the front of the receive buffer. `usize` has 64 bits, and its addition
-- wraps round, as in a release build.
pub mod Search
pub mod Split
pub mod Chunks
pub mod Progress
pub mod Messages
use gmv_pjsip.Prelude.{
  ℕ, zero, suc, ◌+◌, ◌-◌, ◌%◌, ◌^◌, Bool, true, false, List, [], ◌∷◌, ◌++◌, Option, none, some, ltb,
  if◌then◌else◌, length, take, drop,
}
use gmv_pjsip.Text.{
  Text, codes, eq_ignore_ascii_case, trim, split_once, lines, find, parse_uint, from_utf8,
}

abbrev pub Bytes : Type 0
Bytes = List ℕ

abbrev pub usize_mod : ℕ
usize_mod = 2 ^ 64

abbrev pub end_of_headers : Bytes
end_of_headers = b'\r' ∷ b'\n' ∷ b'\r' ∷ b'\n' ∷ []

-- `value.trim().parse().ok()` behind a header name that is `Content-Length`
length_on_line : Text → Option ℕ
length_on_line line = elim (split_once b':' line) [
  | none ↦ none
  | some (name, value) ↦
      if eq_ignore_ascii_case name (codes "Content-Length")
      then parse_uint (usize_mod - 1) (trim value)
      else none
]

-- `find_map` over the lines
first_length : List Text → Option ℕ
unfolding length_on_line
first_length [] = none
first_length (l ∷ ls) = elim (length_on_line l) [ none ↦ first_length ls | some n ↦ some n ]

unfoldable pub content_length : Bytes → Option ℕ
unfolding first_length
content_length headers = elim (from_utf8 headers) [ none ↦ none | some t ↦ first_length (lines t) ]

abbrev or_zero : Option ℕ → ℕ
or_zero none = 0
or_zero (some n) = n

-- The declared length of the body behind the header block of `header_end` bytes.
unfoldable pub body_length : ℕ → Bytes → ℕ
body_length header_end buffer = or_zero (content_length (take header_end buffer))

-- `header_end + 4 + content_length`
unfoldable pub message_len : ℕ → Bytes → ℕ
message_len header_end buffer = (header_end + 4 + body_length header_end buffer) % usize_mod

-- The part behind the search for the empty line, with the position found.
framed : Option ℕ → Bytes → Option (Bytes × Bytes)
framed none buffer = none
framed (some header_end) buffer =
    if ltb (length buffer) (message_len header_end buffer)
    then none
    else some
        (take (message_len header_end buffer) buffer, drop (message_len header_end buffer) buffer)

-- The message that is drained off the buffer, and what is left in the buffer.
unfoldable pub next_sip_message : Bytes → Option (Bytes × Bytes)
unfolding framed
next_sip_message buffer = framed (find end_of_headers buffer) buffer

-- `while let Some(message) = next_sip_message(&mut buffer)` with fuel; `none` means that the fuel
-- ran out.
unfoldable pub drain_messages : ℕ → Bytes → Option (List Bytes × Bytes)
unfolding next_sip_message
drain_messages zero buffer = none
drain_messages (suc fuel) buffer = elim (next_sip_message buffer) [
  | none ↦ some ([], buffer)
  | some (message, rest) ↦ elim (drain_messages fuel rest) [
    | none ↦ none
    | some (messages, left) ↦ some (message ∷ messages, left)
  ]
]

-- The read loop over the chunks that the socket delivers: each is appended to the buffer, and the
-- whole messages are taken off.
unfoldable pub read_chunks : ℕ → Bytes → List Bytes → Option (List Bytes × Bytes)
unfolding drain_messages
read_chunks fuel buffer [] = some ([], buffer)
read_chunks fuel buffer (chunk ∷ chunks) = elim (drain_messages fuel (buffer ++ chunk)) [
  | none ↦ none
  | some (messages, left) ↦ elim (read_chunks fuel left chunks) [
    | none ↦ none
    | some (later, left') ↦ some (messages ++ later, left')
  ]
]
