-- ===== src/Tests/Framing.antt =====
-- The framing of src/io.rs at concrete streams.
use gmv_pjsip.Prelude.{◌≡◌, refl, List, [], ◌∷◌, ◌++◌, some, none, true, arith, inl, inr}
use gmv_pjsip.Text.{
  codes, find, from_utf8, lines, split_once, parse_uint, trim, eq_ignore_ascii_case,
}
use gmv_pjsip.Io.Framing.{
  Bytes, content_length, next_sip_message, drain_messages, read_chunks, body_length, message_len,
}
use gmv_pjsip.Io.Framing.Chunks.{read_chunks-drain_messages}
use gmv_pjsip.Io.Framing.Messages.{SipMessage, encode, IsFramed, read_chunks-encode}
use gmv_pjsip.Io.Framing.Progress.{
  lengths_fit, lengths_fit-LengthsFit, drain_messages-total, drain_messages_stalls,
}

abbrev bye_message : SipMessage
bye_message = record { headers = codes "BYE sip:a SIP/2.0"; body = [] }

abbrev info_message : SipMessage
info_message = record {
  headers = codes "INFO sip:a SIP/2.0\r\ncontent-length: 5";
  body = codes "hello";
}

-- Both messages and the beginning of a third, in three pieces.
abbrev pieces : List Bytes
pieces =
    codes "BYE sip:a SIP/2.0\r\n\r"
    ∷ codes "\nINFO sip:a SIP/2.0\r\ncontent-length: 5\r\n\r\nhel"
    ∷ codes "loACK"
    ∷ []

two_messages :
    drain_messages 3 (encode bye_message ++ (encode info_message ++ codes "ACK"))
    ≡ some (encode bye_message ∷ encode info_message ∷ [], codes "ACK")
unfolding drain_messages message_len body_length content_length find from_utf8 lines split_once
    parse_uint trim eq_ignore_ascii_case
two_messages = refl

read_chunks-drain_messages_example :
    read_chunks 3 [] pieces ≡ some (encode bye_message ∷ encode info_message ∷ [], codes "ACK")
read_chunks-drain_messages_example =
    read_chunks-drain_messages pieces 3 3 (encode bye_message ∷ encode info_message ∷ [])
      (codes "ACK") two_messages (omega arith)

bye_message-IsFramed : IsFramed bye_message
unfolding content_length find from_utf8 lines split_once eq_ignore_ascii_case
bye_message-IsFramed = record {
  first_empty_line = refl;
  announced = inr (refl, refl);
  in_range = omega arith;
}

info_message-IsFramed : IsFramed info_message
unfolding content_length find from_utf8 lines split_once parse_uint trim eq_ignore_ascii_case
info_message-IsFramed = record {
  first_empty_line = refl;
  announced = inl refl;
  in_range = omega arith;
}

waits : next_sip_message (codes "ACK") ≡ none
unfolding next_sip_message find
waits = refl

read_chunks-encode_example :
    read_chunks 3 [] pieces ≡ some (encode bye_message ∷ encode info_message ∷ [], codes "ACK")
read_chunks-encode_example =
    read_chunks-encode (bye_message ∷ info_message ∷ []) (codes "ACK") pieces 3
      (bye_message-IsFramed, (info_message-IsFramed, tt)) waits refl (omega arith)

fits : lengths_fit (encode bye_message) ≡ true
unfolding lengths_fit body_length content_length find from_utf8 lines split_once parse_uint trim
    eq_ignore_ascii_case
fits = refl

drain_messages-total_example :
    (ms : List Bytes) × (r : Bytes) × (drain_messages 22 (encode bye_message) ≡ some (ms, r))
drain_messages-total_example =
    drain_messages-total 22 (encode bye_message) (omega arith)
      (lengths_fit-LengthsFit (encode bye_message) fits)

abbrev endless : Bytes
endless = codes "Content-Length: 18446744073709551576\r\n\r\n"

drain_messages_stalls_example : next_sip_message endless ≡ some ([], endless)
unfolding body_length content_length find from_utf8 lines split_once parse_uint trim
    eq_ignore_ascii_case
drain_messages_stalls_example = (drain_messages_stalls endless 36 refl refl).0
