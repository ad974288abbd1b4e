-- ===== src/Transport/Parse.antt =====
-- `FromStr` of the standard library for `IpAddr` and `SocketAddr`, as src/runtime.rs calls it. A reader
-- takes a text and returns what it read with the rest; a reader that fails has read nothing. The scope
-- of an IPv6 address is read and dropped.
pub mod RoundTrip
use gmv_pjsip.Prelude.{
  ℕ, zero, suc, ◌+◌, ◌-◌, ◌*◌, ◌/◌, ◌%◌, ◌^◌, Bool, true, false, not, ◌&&◌, List, [], ◌∷◌, ◌++◌,
  Option, none, some, ltb, leb, ◌==◌, if◌then◌else◌, length, is_empty,
}
use gmv_pjsip.Prelude.Options.{◌>>=◌}
use gmv_pjsip.Text.{Text}
use gmv_pjsip.Transport.{SocketAddr, v4, v6}

-- `char::to_digit`, for a radix of 10 or 16
unfoldable pub to_digit : ℕ → ℕ → Option ℕ
to_digit radix c =
    if leb b'0' c && leb c b'9'
    then some (c - b'0')
    else if radix == 16 && leb b'a' c && leb c b'f'
    then some (c - b'a' + 10)
    else if radix == 16 && leb b'A' c && leb c b'F'
    then some (c - b'A' + 10)
    else none

-- The number in front, behind what `acc` holds; how many digits were read; and the rest.
unfoldable pub read_digits : ℕ → ℕ → ℕ → Text → ℕ × ℕ × Text
unfolding to_digit
read_digits radix acc count [] = (acc, count, [])
read_digits radix acc count (c ∷ s) = elim (to_digit radix c) [
  | none ↦ (acc, count, c ∷ s)
  | some d ↦ read_digits radix (acc * radix + d) (count + 1) s
]

abbrev leading_zero : Text → Bool
leading_zero [] = false
leading_zero (c ∷ s) = c == b'0'

abbrev exceeds : Option ℕ → ℕ → Bool
exceeds none count = false
exceeds (some most) count = ltb most count

-- `read_number`: the largest value of the type, the most digits, and whether zeros may lead.
unfoldable pub read_number : ℕ → ℕ → Option ℕ → Bool → Text → Option (ℕ × Text)
unfolding read_digits
read_number radix max max_digits allow_zero_prefix s =
    let (value, count, rest) = read_digits radix 0 0 s in
    if exceeds max_digits count
    then none
    else if count == 0
    then none
    else if not allow_zero_prefix && leading_zero s && ltb 1 count
    then none
    else if ltb max value
    then none
    else some (value, rest)

unfoldable pub read_given_char : ℕ → Text → Option Text
read_given_char c [] = none
read_given_char c (d ∷ s) = if d == c then some s else none

-- `read_separator`: from the second element on, the separator stands in front.
unfoldable pub read_separator {ℓ} :
    {A : Type ℓ} → ℕ → ℕ → (Text → Option (A × Text)) → Text → Option (A × Text)
unfolding read_given_char
read_separator sep zero read s = read s
read_separator sep (suc i) read s = elim (read_given_char sep s) [
  | none ↦ none
  | some rest ↦ read rest
]

unfoldable pub read_octet : ℕ → Text → Option (ℕ × Text)
unfolding read_separator read_number
read_octet i = read_separator b'.' i (read_number 10 255 (some 3) false)

unfoldable pub read_ipv4_addr : Text → Option ((ℕ × ℕ × ℕ × ℕ) × Text)
unfolding read_octet
read_ipv4_addr s = do
  (a, s1) ← read_octet 0 s
  (b, s2) ← read_octet 1 s1
  (c, s3) ← read_octet 2 s2
  (d, s4) ← read_octet 3 s3
  some ((a, b, c, d), s4)

-- `read_groups` for `left` groups, the first of which has the number `i`: the groups, whether an IPv4
-- address came last, and the rest.
read_groups : ℕ → ℕ → Text → List ℕ × Bool × Text
unfolding read_separator read_number read_ipv4_addr
read_groups i zero s = ([], false, s)
read_groups i (suc left) s =
    let embedded = if ltb 0 left then read_separator b':' i read_ipv4_addr s else none in
    elim embedded [
      | some ((a, b, c, d), rest) ↦ ((a * 256 + b) ∷ (c * 256 + d) ∷ [], true, rest)
      | none ↦ elim (read_separator b':' i (read_number 16 0xffff (some 4) true) s) [
        | none ↦ ([], false, s)
        | some (g, rest) ↦
            let (gs, ipv4, rest') = read_groups (i + 1) left rest in (g ∷ gs, ipv4, rest')
      ]
    ]

zeros : ℕ → List ℕ
zeros zero = []
zeros (suc n) = 0 ∷ zeros n

-- The groups behind `::`, with zeros in front.
filled : List ℕ → List ℕ × Bool × Text → List ℕ × Text
unfolding zeros
filled head (tail, ipv4, rest) = (head ++ (zeros (8 - length head - length tail) ++ tail), rest)

-- The part of `read_ipv6_addr` behind the first groups.
behind_head : List ℕ → Bool → Text → Option (List ℕ × Text)
unfolding read_groups filled read_given_char
behind_head head ipv4 s = if length head == 8 then some (head, s) else if ipv4 then none else do
  s1 ← read_given_char b':' s
  s2 ← read_given_char b':' s1
  some (filled head (read_groups 0 (8 - (length head + 1)) s2))

unfoldable pub read_ipv6_addr : Text → Option (List ℕ × Text)
unfolding behind_head read_groups
read_ipv6_addr s = let (head, ipv4, rest) = read_groups 0 8 s in behind_head head ipv4 rest

unfoldable pub read_port : Text → Option (ℕ × Text)
unfolding read_number read_given_char
read_port s = do s1 ← read_given_char b':' s; read_number 10 (2 ^ 16 - 1) none true s1

-- The rest behind the scope, if there is one.
skip_scope : Text → Text
unfolding read_number read_given_char
skip_scope s = elim (read_given_char b'%' s) [
  | none ↦ s
  | some s1 ↦ elim (read_number 10 (2 ^ 32 - 1) none true s1) [ none ↦ s | some (n, s2) ↦ s2 ]
]

read_socket_addr_v4 : Text → Option (SocketAddr × Text)
unfolding read_ipv4_addr read_port
read_socket_addr_v4 s = do
  ((a, b, c, d), s1) ← read_ipv4_addr s
  (port, s2) ← read_port s1
  some (v4 a b c d port, s2)

read_socket_addr_v6 : Text → Option (SocketAddr × Text)
unfolding read_ipv6_addr read_port skip_scope read_given_char
read_socket_addr_v6 s = do
  s1 ← read_given_char b'[' s
  (segments, s2) ← read_ipv6_addr s1
  s3 ← read_given_char b']' (skip_scope s2)
  (port, s4) ← read_port s3
  some (v6 segments port, s4)

-- `parse_with`: the whole text must be read.
abbrev pub whole {ℓ} : {A : Type ℓ} → Option (A × Text) → Option A
whole none = none
whole (some (a, rest)) = if is_empty rest then some a else none

-- `text.parse::<SocketAddr>().ok()`
unfoldable pub parse_socket_addr : Text → Option SocketAddr
unfolding read_socket_addr_v4 read_socket_addr_v6
parse_socket_addr s = elim (read_socket_addr_v4 s) [
  | some (a, rest) ↦ whole (some (a, rest))
  | none ↦ whole (read_socket_addr_v6 s)
]

-- `SocketAddr::new(text.parse::<IpAddr>().ok()?, port)`
unfoldable pub parse_ip : Text → ℕ → Option SocketAddr
unfolding read_ipv4_addr read_ipv6_addr
parse_ip s port = elim (read_ipv4_addr s) [
  | some ((a, b, c, d), rest) ↦ whole (some (v4 a b c d port, rest))
  | none ↦ elim (whole (read_ipv6_addr s)) [ none ↦ none | some segments ↦ some (v6 segments port) ]
]
