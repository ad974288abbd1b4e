-- ===== src/Gb28181/Sdp/RoundTrip.antt =====
-- The session descriptions that src/gb28181/sdp.rs builds are read back by its own reader.
use gmv_pjsip.Prelude.{ℕ, ◌≤◌, ◌≡◌, refl, ap, ◌∙◌, List, ◌++◌}
use gmv_pjsip.Text.{Text, codes, trim, print_uint, print_padded, is_whitespace}
use gmv_pjsip.Gb28181.Sdp.{
  u16_max, read_lines, empty_info, parse_lossy, crlf_lines, PlaySdpOptions, format_ssrc, play_lines,
  build_play_sdp, TalkSdpOptions, TalkAudioCodec, TalkSdpMode, g711_a, g711_u, l16, send_recv,
  send_only, recv_only, rtpmap, as_sdp_attr, talk_lines, build_talk_sdp,
}
use gmv_pjsip.Gb28181.Sdp.Reading.{described, read_description}
use gmv_pjsip.Gb28181.Sdp.Lines.{NoFeed, NoFeed-append, NoFeeds, lines-crlf_lines}
use gmv_pjsip.Gb28181.Sdp.Words.{IsWord, Plain-NoFeed}
use gmv_pjsip.Gb28181.Sdp.Decimal.{print_uint-IsWord, print_padded-IsWord}

parse_lossy-crlf_lines :
    (ls : List Text)
    → NoFeeds ls
    → parse_lossy (crlf_lines ls) ≡ read_lines (empty_info (crlf_lines ls)) ls
unfolding parse_lossy
parse_lossy-crlf_lines ls h = ap (read_lines (empty_info (crlf_lines ls))) (lines-crlf_lines ls h)

origin-NoFeed :
    (ssrc : ℕ) (ip : Text) → IsWord ip → NoFeed (format_ssrc ssrc ++ (codes " 0 0 IN IP4 " ++ ip))
unfolding format_ssrc
origin-NoFeed ssrc ip w =
    NoFeed-append (print_padded 10 ssrc) (codes " 0 0 IN IP4 " ++ ip)
      (Plain-NoFeed (print_padded 10 ssrc) (print_padded-IsWord 10 ssrc).1) (Plain-NoFeed ip w.1)

media-NoFeed :
    (port payload_type : ℕ)
    → NoFeed (print_uint port ++ (codes " RTP/AVP " ++ print_uint payload_type))
media-NoFeed port payload_type =
    NoFeed-append (print_uint port) (codes " RTP/AVP " ++ print_uint payload_type)
      (Plain-NoFeed (print_uint port) (print_uint-IsWord port).1)
      (Plain-NoFeed (print_uint payload_type) (print_uint-IsWord payload_type).1)

ssrc-NoFeed : (ssrc : ℕ) → NoFeed (format_ssrc ssrc)
unfolding format_ssrc
ssrc-NoFeed ssrc = Plain-NoFeed (print_padded 10 ssrc) (print_padded-IsWord 10 ssrc).1

number-NoFeed : (n : ℕ) (t : Text) → NoFeed t → NoFeed (print_uint n ++ t)
number-NoFeed n t h =
    NoFeed-append (print_uint n) t (Plain-NoFeed (print_uint n) (print_uint-IsWord n).1) h

-- A description for live play is read back: with an address that is a word and a port that fits 16
-- bits, the reader finds the name, the address, the port, the protocol, the payload type and the SSRC.
pub parse_lossy-build_play_sdp :
    (o : PlaySdpOptions)
    → IsWord o.ip
    → o.port ≤ u16_max
    → parse_lossy (build_play_sdp o)
      ≡ described (codes "Play") o.ip o.port o.payload_type o.ssrc (build_play_sdp o)
unfolding build_play_sdp play_lines
parse_lossy-build_play_sdp o w h =
    parse_lossy-crlf_lines (play_lines o) (
      refl,
      (
        origin-NoFeed o.ssrc o.ip w,
        (
          refl,
          (
            Plain-NoFeed o.ip w.1,
            (
              refl,
              (
                media-NoFeed o.port o.payload_type,
                (
                  refl,
                  (number-NoFeed o.payload_type (codes " PS/90000") refl, (ssrc-NoFeed o.ssrc, tt)),
                ),
              ),
            ),
          ),
        ),
      ),
    )
    ∙ read_description (codes "Play") (codes "video") o.ip _ _ _ o.port o.payload_type o.ssrc _
        (unfold trim is_whitespace in refl) (refl, unfold is_whitespace in refl) w h

mode-NoFeed : (mode : TalkSdpMode) → NoFeed (as_sdp_attr mode)
unfolding as_sdp_attr
mode-NoFeed send_recv = refl
mode-NoFeed send_only = refl
mode-NoFeed recv_only = refl

rtpmap-NoFeed : (codec : TalkAudioCodec) (n : ℕ) → NoFeed (rtpmap codec n)
unfolding rtpmap
rtpmap-NoFeed g711_a n = number-NoFeed n (codes " PCMA/8000") refl
rtpmap-NoFeed g711_u n = number-NoFeed n (codes " PCMU/8000") refl
rtpmap-NoFeed l16 n = number-NoFeed n (codes " L16/8000/1") refl

-- A description for talk is read back the same way, whatever its codec and mode.
pub parse_lossy-build_talk_sdp :
    (o : TalkSdpOptions)
    → IsWord o.ip
    → o.port ≤ u16_max
    → parse_lossy (build_talk_sdp o)
      ≡ described (codes "Talk") o.ip o.port o.payload_type o.ssrc (build_talk_sdp o)
unfolding build_talk_sdp talk_lines
parse_lossy-build_talk_sdp o w h =
    parse_lossy-crlf_lines (talk_lines o) (
      refl,
      (
        origin-NoFeed o.ssrc o.ip w,
        (
          refl,
          (
            Plain-NoFeed o.ip w.1,
            (
              refl,
              (
                media-NoFeed o.port o.payload_type,
                (
                  mode-NoFeed o.mode,
                  (rtpmap-NoFeed o.codec o.payload_type, (ssrc-NoFeed o.ssrc, tt)),
                ),
              ),
            ),
          ),
        ),
      ),
    )
    ∙ read_description (codes "Talk") (codes "audio") o.ip _ _ _ o.port o.payload_type o.ssrc _
        (unfold trim is_whitespace in refl) (refl, unfold is_whitespace in refl) w h
