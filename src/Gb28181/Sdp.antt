-- ===== src/Gb28181/Sdp.antt =====
-- src/gb28181/sdp.rs: session descriptions, read loosely and built for live play and for talk.
pub mod Lines
pub mod Words
pub mod Decimal
pub mod Reading
pub mod RoundTrip
use gmv_pjsip.Prelude.{ℕ, ◌-◌, ◌^◌, List, [], ◌∷◌, ◌++◌, Option, none, some, map}
use gmv_pjsip.Text.{
  Text, codes, trim, lines, strip_prefix, split_whitespace, parse_uint, print_uint, print_padded,
}

pub record SdpInfo : Type 0 where
  pub session_name : Option Text
  pub connection_addr : Option Text
  pub media_port : Option ℕ
  pub media_proto : Option Text
  pub media_payloads : List Text
  pub ssrc : Option Text
  pub raw : Text

abbrev pub u16_max : ℕ
u16_max = 2 ^ 16 - 1

-- `Iterator::last`
abbrev pub last : List Text → Option Text
last [] = none
last (t ∷ []) = some t
last (t ∷ u ∷ ts) = last (u ∷ ts)

-- The parts of a media line: fewer than three change nothing.
unfoldable pub set_media : List Text → SdpInfo → SdpInfo
set_media (media ∷ port ∷ proto ∷ payloads) out = record out {
  media_port = parse_uint u16_max port;
  media_proto = some proto;
  media_payloads = payloads;
}
set_media _ out = out

-- The body of the loop, for a line that is trimmed.
unfoldable pub read_line : SdpInfo → Text → SdpInfo
unfolding set_media
read_line out line = elim (strip_prefix (codes "s=") line) [
  | some v ↦ record out { session_name = some v }
  | none ↦ elim (strip_prefix (codes "c=") line) [
    | some v ↦ record out { connection_addr = last (split_whitespace v) }
    | none ↦ elim (strip_prefix (codes "m=") line) [
      | some v ↦ set_media (split_whitespace v) out
      | none ↦ elim (strip_prefix (codes "y=") line) [
        | some v ↦ record out { ssrc = some v }
        | none ↦ out
      ]
    ]
  ]
]

unfoldable pub read_lines : SdpInfo → List Text → SdpInfo
unfolding read_line
read_lines out [] = out
read_lines out (line ∷ rest) = read_lines (read_line out (trim line)) rest

abbrev pub empty_info : Text → SdpInfo
empty_info sdp = record {
  session_name = none;
  connection_addr = none;
  media_port = none;
  media_proto = none;
  media_payloads = [];
  ssrc = none;
  raw = sdp;
}

unfoldable pub parse_lossy : Text → SdpInfo
unfolding read_lines
parse_lossy sdp = read_lines (empty_info sdp) (lines sdp)

-- A text whose format string ends every line in "\r\n".
unfoldable pub crlf_lines : List Text → Text
crlf_lines [] = []
crlf_lines (line ∷ rest) = line ++ (b'\r' ∷ b'\n' ∷ crlf_lines rest)

pub record PlaySdpOptions : Type 0 where
  pub ip : Text
  pub port : ℕ
  pub ssrc : ℕ
  pub payload_type : ℕ

unfoldable pub format_ssrc : ℕ → Text
format_ssrc ssrc = print_padded 10 ssrc

unfoldable pub play_lines : PlaySdpOptions → List Text
play_lines o =
    codes "v=0"
    ∷ (codes "o=" ++ (format_ssrc o.ssrc ++ (codes " 0 0 IN IP4 " ++ o.ip)))
    ∷ codes "s=Play"
    ∷ (codes "c=IN IP4 " ++ o.ip)
    ∷ codes "t=0 0"
    ∷ (codes "m=video " ++ (print_uint o.port ++ (codes " RTP/AVP " ++ print_uint o.payload_type)))
    ∷ codes "a=recvonly"
    ∷ (codes "a=rtpmap:" ++ (print_uint o.payload_type ++ codes " PS/90000"))
    ∷ (codes "y=" ++ format_ssrc o.ssrc)
    ∷ []

unfoldable pub build_play_sdp : PlaySdpOptions → Text
unfolding play_lines crlf_lines
build_play_sdp o = crlf_lines (play_lines o)

pub data TalkAudioCodec : Type 0 where
  g711_a g711_u l16 : TalkAudioCodec

unfoldable pub rtpmap : TalkAudioCodec → ℕ → Text
rtpmap g711_a payload_type = print_uint payload_type ++ codes " PCMA/8000"
rtpmap g711_u payload_type = print_uint payload_type ++ codes " PCMU/8000"
rtpmap l16 payload_type = print_uint payload_type ++ codes " L16/8000/1"

pub data TalkSdpMode : Type 0 where
  send_recv send_only recv_only : TalkSdpMode

unfoldable pub as_sdp_attr : TalkSdpMode → Text
as_sdp_attr send_recv = codes "sendrecv"
as_sdp_attr send_only = codes "sendonly"
as_sdp_attr recv_only = codes "recvonly"

pub record TalkSdpOptions : Type 0 where
  pub ip : Text
  pub port : ℕ
  pub ssrc : ℕ
  pub payload_type : ℕ
  pub codec : TalkAudioCodec
  pub mode : TalkSdpMode

unfoldable pub talk_lines : TalkSdpOptions → List Text
unfolding rtpmap as_sdp_attr
talk_lines o =
    codes "v=0"
    ∷ (codes "o=" ++ (format_ssrc o.ssrc ++ (codes " 0 0 IN IP4 " ++ o.ip)))
    ∷ codes "s=Talk"
    ∷ (codes "c=IN IP4 " ++ o.ip)
    ∷ codes "t=0 0"
    ∷ (codes "m=audio " ++ (print_uint o.port ++ (codes " RTP/AVP " ++ print_uint o.payload_type)))
    ∷ (codes "a=" ++ as_sdp_attr o.mode)
    ∷ (codes "a=rtpmap:" ++ rtpmap o.codec o.payload_type)
    ∷ (codes "y=" ++ format_ssrc o.ssrc)
    ∷ []

unfoldable pub build_talk_sdp : TalkSdpOptions → Text
unfolding talk_lines crlf_lines
build_talk_sdp o = crlf_lines (talk_lines o)
