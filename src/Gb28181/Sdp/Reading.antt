-- ===== src/Gb28181/Sdp/Reading.antt =====
-- What the reader of src/gb28181/sdp.rs makes of each line that its builders write.
use gmv_pjsip.Prelude.{
  ℕ, ◌≤◌, ◌≡◌, refl, ap, ◌∙◌, List, [], ◌∷◌, ◌++◌, Option, some, arith, append_assoc,
}
use gmv_pjsip.Text.{Text, codes, trim, strip_prefix, split_whitespace, print_uint, is_whitespace}
use gmv_pjsip.Gb28181.Sdp.{
  SdpInfo, u16_max, last, set_media, read_line, read_lines, empty_info, format_ssrc,
}
use gmv_pjsip.Gb28181.Sdp.Words.{
  IsWord, trim-visible, trim-line, split_whitespace-word, split_whitespace-words,
}
use gmv_pjsip.Gb28181.Sdp.Decimal.{parse_uint-print_uint, print_uint-IsWord, print_padded-IsWord}

-- What is read from a description with these values.
abbrev pub described : Text → Text → ℕ → ℕ → ℕ → Text → SdpInfo
described name ip port payload_type ssrc raw = record {
  session_name = some name;
  connection_addr = some ip;
  media_port = some port;
  media_proto = some (codes "RTP/AVP");
  media_payloads = print_uint payload_type ∷ [];
  ssrc = some (format_ssrc ssrc);
  raw = raw;
}

words :
    (a b : Text)
    → IsWord a
    → IsWord b
    → split_whitespace (a ++ (codes " RTP/AVP " ++ b)) ≡ a ∷ codes "RTP/AVP" ∷ b ∷ []
words a b v w =
    split_whitespace-words a (codes "RTP/AVP " ++ b) v
    ∙ ap (◌∷◌ a) (
        split_whitespace-words (codes "RTP/AVP") b (refl, unfold is_whitespace in refl)
        ∙ ap (◌∷◌ (codes "RTP/AVP")) (split_whitespace-word b w))

address : (ip : Text) → IsWord ip → last (split_whitespace (codes "IN IP4 " ++ ip)) ≡ some ip
address ip w = ap last (
    split_whitespace-words (codes "IN") (codes "IP4 " ++ ip) (refl, unfold is_whitespace in refl)
    ∙ ap (◌∷◌ (codes "IN")) (
        split_whitespace-words (codes "IP4") ip (refl, unfold is_whitespace in refl)
        ∙ ap (◌∷◌ (codes "IP4")) (split_whitespace-word ip w)))

read_address :
    (out : SdpInfo) (ip : Text)
    → IsWord ip
    → read_line out (trim (codes "c=IN IP4 " ++ ip)) ≡ record out { connection_addr = some ip }
unfolding read_line strip_prefix
read_address out ip w =
    rw (trim-line b'c' (codes "=IN IP4 ") ip (unfold is_whitespace in refl) w)
      (ap (λ (a : Option Text). record out { connection_addr = a }) (address ip w))

read_ssrc :
    (out : SdpInfo) (ssrc : Text)
    → IsWord ssrc
    → read_line out (trim (codes "y=" ++ ssrc)) ≡ record out { ssrc = some ssrc }
unfolding read_line strip_prefix
read_ssrc out ssrc w = rw (trim-line b'y' (codes "=") ssrc (unfold is_whitespace in refl) w) refl

-- A media line, behind its first word.
read_media :
    (out : SdpInfo) (kind : Text) (port payload_type : ℕ)
    → IsWord kind
    → port ≤ u16_max
    → read_line out (
        trim (
          codes "m="
          ++ (kind
              ++ (b' ' ∷ (print_uint port ++ (codes " RTP/AVP " ++ print_uint payload_type))))))
      ≡ record out {
        media_port = some port;
        media_proto = some (codes "RTP/AVP");
        media_payloads = print_uint payload_type ∷ [];
      }
unfolding read_line strip_prefix set_media
read_media out kind port payload_type w h =
    let rest = print_uint port ++ (codes " RTP/AVP " ++ print_uint payload_type) in
    let base =
      trim-line b'm' (codes "=" ++ (kind ++ (b' ' ∷ (print_uint port ++ codes " RTP/AVP "))))
        (print_uint payload_type) (unfold is_whitespace in refl) (print_uint-IsWord payload_type) in
    let trimmed : trim (codes "m=" ++ (kind ++ (b' ' ∷ rest)))
        ≡ codes "m=" ++ (kind ++ (b' ' ∷ rest)) =
      simp append_assoc at base in
    let parts : split_whitespace (kind ++ (b' ' ∷ rest))
        ≡ kind ∷ print_uint port ∷ codes "RTP/AVP" ∷ print_uint payload_type ∷ [] =
      split_whitespace-words kind rest w
      ∙ ap (◌∷◌ kind) (
          words (print_uint port) (print_uint payload_type) (print_uint-IsWord port)
            (print_uint-IsWord payload_type)) in
    rw trimmed (
      rw parts (
        ap
          (λ (p : Option ℕ). record out {
            media_port = p;
            media_proto = some (codes "RTP/AVP");
            media_payloads = print_uint payload_type ∷ [];
          })
          (parse_uint-print_uint u16_max port h (omega arith))))

-- Lines of other kinds are passed over.
read_origin : (out : SdpInfo) (s : Text) → read_line out (trim (b'o' ∷ s)) ≡ out
unfolding read_line strip_prefix
read_origin out s = rw (trim-visible b'o' s (unfold is_whitespace in refl)) refl

read_attribute : (out : SdpInfo) (s : Text) → read_line out (trim (b'a' ∷ s)) ≡ out
unfolding read_line strip_prefix
read_attribute out s = rw (trim-visible b'a' s (unfold is_whitespace in refl)) refl

step :
    (out : SdpInfo) {out' : SdpInfo} (line : Text) (rest : List Text)
    → read_line out (trim line) ≡ out'
    → read_lines out (line ∷ rest) ≡ read_lines out' rest
unfolding read_lines
step out line rest e = ap (λ (x : SdpInfo). read_lines x rest) e

read_end : (out : SdpInfo) → read_lines out [] ≡ out
unfolding read_lines
read_end out = refl

read_name :
    (out : SdpInfo) (name : Text)
    → trim (codes "s=" ++ name) ≡ codes "s=" ++ name
    → read_line out (trim (codes "s=" ++ name)) ≡ record out { session_name = some name }
unfolding read_line strip_prefix
read_name out name n = rw n refl

read_version : (out : SdpInfo) → read_line out (trim (codes "v=0")) ≡ out
unfolding read_line strip_prefix
read_version out = rw (trim-visible b'v' (codes "=0") (unfold is_whitespace in refl)) refl

read_time : (out : SdpInfo) → read_line out (trim (codes "t=0 0")) ≡ out
unfolding read_line strip_prefix
read_time out = rw (trim-visible b't' (codes "=0 0") (unfold is_whitespace in refl)) refl

-- What the reader makes of the lines of a description, behind their check for line feeds.
pub read_description :
    (name : Text) (kind ip rest attribute media : Text) (port payload_type ssrc : ℕ) (raw : Text)
    → trim (codes "s=" ++ name) ≡ codes "s=" ++ name
    → IsWord kind
    → IsWord ip
    → port ≤ u16_max
    → read_lines (empty_info raw) (
        codes "v=0"
        ∷ (b'o' ∷ rest)
        ∷ (codes "s=" ++ name)
        ∷ (codes "c=IN IP4 " ++ ip)
        ∷ codes "t=0 0"
        ∷ (codes "m="
            ++ (kind
                ++ (b' ' ∷ (print_uint port ++ (codes " RTP/AVP " ++ print_uint payload_type)))))
        ∷ (b'a' ∷ attribute)
        ∷ (b'a' ∷ media)
        ∷ (codes "y=" ++ format_ssrc ssrc)
        ∷ [])
      ≡ described name ip port payload_type ssrc raw
read_description name kind ip rest attribute media port payload_type ssrc raw n k i p =
    step _ _ _ (read_version _)
    ∙ step _ _ _ (read_origin _ rest)
    ∙ step _ _ _ (read_name _ name n)
    ∙ step _ _ _ (read_address _ ip i)
    ∙ step _ _ _ (read_time _)
    ∙ step _ _ _ (read_media _ kind port payload_type k p)
    ∙ step _ _ _ (read_attribute _ attribute)
    ∙ step _ _ _ (read_attribute _ media)
    ∙ step _ _ []
        (read_ssrc _ (format_ssrc ssrc) (unfold format_ssrc in print_padded-IsWord 10 ssrc))
    ∙ read_end _
