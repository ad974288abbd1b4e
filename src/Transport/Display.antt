-- ===== src/Transport/Display.antt =====
-- `Display` of the standard library for the addresses of sockets (`ip().to_string()`).
use gmv_pjsip.Prelude.{
  ℕ, zero, suc, ◌+◌, ◌-◌, ◌/◌, ◌%◌, List, [], ◌∷◌, ◌++◌, ltb, ◌==◌, if◌then◌else◌, take, drop,
}
use gmv_pjsip.Text.{Text, codes, print_uint}
use gmv_pjsip.Transport.{SocketAddr, v4, v6}

unfoldable pub ipv4_text : ℕ → ℕ → ℕ → ℕ → Text
ipv4_text a b c d =
    print_uint a ++ (b'.' ∷ (print_uint b ++ (b'.' ∷ (print_uint c ++ (b'.' ∷ print_uint d)))))

hex_digit : ℕ → ℕ
hex_digit n = if ltb n 10 then b'0' + n else b'a' + (n - 10)

-- `{:x}` of a segment: at most four digits.
hex_digits : ℕ → ℕ → Text → Text
unfolding hex_digit
hex_digits zero n out = out
hex_digits (suc f) n out =
    let more = hex_digits f (n / 16) (hex_digit (n % 16) ∷ out) in
    let last = hex_digit n ∷ out in if ltb n 16 then last else more

joined : List ℕ → Text
unfolding hex_digits
joined [] = []
joined (s ∷ []) = hex_digits 4 s []
joined (s ∷ t ∷ ss) = hex_digits 4 s [] ++ (b':' ∷ joined (t ∷ ss))

-- The first of the longest runs of zero segments, as its start and length. The arguments are the
-- position, the run that is open, and the best one so far.
longest_zeros : ℕ → ℕ × ℕ → ℕ × ℕ → List ℕ → ℕ × ℕ
longest_zeros i open_run best [] = best
longest_zeros i (start, len) (best, best_len) (s ∷ ss) =
    let start' = if len == 0 then i else start in
    let run = if s == 0 then (start', len + 1) else (0, 0) in
    longest_zeros (i + 1) run (if ltb best_len run.1 then run else (best, best_len)) ss

compressed : ℕ × ℕ → List ℕ → Text
unfolding joined
compressed (start, len) segments =
    if ltb 1 len
    then joined (take start segments) ++ (codes "::" ++ joined (drop (start + len) segments))
    else joined segments

-- Addresses that stand for one of IPv4 are written with its four bytes.
unfoldable pub ipv6_text : List ℕ → Text
unfolding compressed longest_zeros
ipv6_text (zero ∷ zero ∷ zero ∷ zero ∷ zero ∷ s ∷ g ∷ h ∷ []) =
    let segments = 0 ∷ 0 ∷ 0 ∷ 0 ∷ 0 ∷ s ∷ g ∷ h ∷ [] in
    if s == 0xffff
    then codes "::ffff:" ++ ipv4_text (g / 256) (g % 256) (h / 256) (h % 256)
    else compressed (longest_zeros 0 (0, 0) (0, 0) segments) segments
ipv6_text segments = compressed (longest_zeros 0 (0, 0) (0, 0) segments) segments

unfoldable pub ip_text : SocketAddr → Text
unfolding ipv4_text ipv6_text
ip_text (v4 a b c d port) = ipv4_text a b c d
ip_text (v6 segments port) = ipv6_text segments

-- `SocketAddr`, with no scope of an IPv6 address
unfoldable pub socket_addr_text : SocketAddr → Text
unfolding ipv4_text ipv6_text
socket_addr_text (v4 a b c d port) = ipv4_text a b c d ++ (b':' ∷ print_uint port)
socket_addr_text (v6 segments port) = (b'[' ∷ ipv6_text segments) ++ (codes "]:" ++ print_uint port)
