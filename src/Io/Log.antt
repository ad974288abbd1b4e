-- ===== src/Io/Log.antt =====
-- The log lines of src/io.rs: `decode_sip_payload`, `escape_payload`, `log_complete_sip_packet` and
-- `log_outgoing_sip_packet`. The decoders of the crate encoding_rs are parameters.
pub mod OneLine
use gmv_pjsip.Prelude.{
  ℕ, ◌+◌, Bool, true, false, ◌||◌, List, [], ◌∷◌, ◌++◌, Option, none, some, ◌==◌, if◌then◌else◌,
  take, drop,
}
use gmv_pjsip.Text.{Text, codes, find, to_ascii_uppercase, from_utf8_lossy, print_uint}
use gmv_pjsip.Transport.{SipTransportProtocol, SocketAddr, v4, v6, as_sip_token}
use gmv_pjsip.Transport.Display.{socket_addr_text}
use gmv_pjsip.Runtime.Types.{SipTransmit}
use gmv_pjsip.Io.Framing.{Bytes, end_of_headers}

-- `GB18030.decode(body).0` and `GBK.decode(body).0`
pub record Decoders : Type 0 where
  pub gb18030 : Bytes → Text
  pub gbk : Bytes → Text

-- `text.contains(part)`
abbrev contains_text : Text → Text → Bool
contains_text part t = elim (find part t) [ none ↦ false | some i ↦ true ]

-- `text.replace(c, with)` for one character
unfoldable pub replace : ℕ → Text → Text → Text
replace c by [] = []
replace c by (x ∷ t) = if x == c then by ++ replace c by t else x ∷ replace c by t

module _ (decoders : Decoders) where
  -- The body by the encoding that its first 256 bytes declare.
  decode_body : Bytes → Text
  decode_body body =
      let declaration = to_ascii_uppercase (from_utf8_lossy (take 256 body)) in
      if contains_text (codes "GB18030") declaration
      then decoders.gb18030 body
      else if contains_text (codes "GB2312") declaration || contains_text (codes "GBK") declaration
      then decoders.gbk body
      else from_utf8_lossy body

  unfoldable pub decode_sip_payload : Bytes → Text
  unfolding decode_body
  decode_sip_payload payload = elim (find end_of_headers payload) [
    | none ↦ from_utf8_lossy payload
    | some header_end ↦
        from_utf8_lossy (take (header_end + 4) payload)
        ++ decode_body (drop (header_end + 4) payload)
  ]

  unfoldable pub escape_payload : Bytes → Text
  unfolding decode_sip_payload replace
  escape_payload payload =
      replace b'\n' (codes "\\n")
        (replace b'\r' (codes "\\r") (replace b'\\' (codes "\\\\") (decode_sip_payload payload)))

  log_line : Text → SipTransportProtocol → ℕ → SocketAddr → SocketAddr → Bytes → Text
  unfolding as_sip_token escape_payload socket_addr_text print_uint
  log_line direction protocol association_id local_addr remote_addr payload =
      direction
      ++ codes ": protocol="
      ++ as_sip_token protocol
      ++ codes " association="
      ++ print_uint association_id
      ++ codes " local="
      ++ socket_addr_text local_addr
      ++ codes " remote="
      ++ socket_addr_text remote_addr
      ++ codes " data="
      ++ escape_payload payload

  unfoldable pub log_complete_sip_packet :
      SipTransportProtocol → ℕ → SocketAddr → SocketAddr → Bytes → Text
  unfolding log_line
  log_complete_sip_packet = log_line (codes "rx")

  unfoldable pub log_outgoing_sip_packet : SipTransmit → Text
  unfolding log_line
  log_outgoing_sip_packet t =
      log_line (codes "tx") t.protocol t.association_id t.local_addr t.remote_addr t.payload
