-- ===== src/Transport/Parse/RoundTrip.antt =====
-- Reading what the standard library prints of an IPv4 address.
use gmv_pjsip.Prelude.{
  ℕ, suc, ◌+◌, ◌*◌, ◌/◌, ◌%◌, ◌<◌, ◌≡◌, refl, true, false, [], ◌∷◌, ◌++◌, none, some, arith, ltb,
  is_empty, append-nil, ◌∙◌, Bool-cases, inl, inr,
}
use gmv_pjsip.Text.{Text, print_uint, print_digits}
use gmv_pjsip.Text.Utf8.Ascii.{is_ascii, is_ascii-append}
use gmv_pjsip.Transport.{v4}
use gmv_pjsip.Transport.Display.{ip_text, ipv4_text}
use gmv_pjsip.Transport.Parse.{
  to_digit, read_digits, read_number, read_octet, read_ipv4_addr, parse_ip,
}

-- The text ends, or goes on with something that is no digit.
abbrev Stops : Text → Type 0
Stops [] = Unit
Stops (c ∷ s) = to_digit 10 c ≡ none

read_digits-Stops :
    (acc count : ℕ) (s : Text) → Stops s → read_digits 10 acc count s ≡ (acc, count, s)
unfolding read_digits
read_digits-Stops acc count [] h = refl
read_digits-Stops acc count (c ∷ s) h = rw (h, read_digits)

read_digits-digit :
    (acc count d next more : ℕ) (s : Text)
    → d < 10
    → acc * 10 + d ≡ next
    → count + 1 ≡ more
    → read_digits 10 acc count ((b'0' + d) ∷ s) ≡ read_digits 10 next more s
unfolding read_digits
read_digits-digit acc count d next more s h e f = rw (digit, read_digits) (rw (e, f))
  where
    digit : to_digit 10 (b'0' + d) ≡ some d
    digit = unfold to_digit in ground arith

print_digits-last : (f n : ℕ) (out : Text) → n < 10 → print_digits (suc f) n out ≡ (b'0' + n) ∷ out
unfolding print_digits
print_digits-last f n out h = let e : ltb n 10 ≡ true = ground arith in rw e

print_digits-more :
    (f n : ℕ) (out : Text)
    → 9 < n
    → print_digits (suc f) n out ≡ print_digits f (n / 10) ((b'0' + n % 10) ∷ out)
unfolding print_digits
print_digits-more f n out h = let e : ltb n 10 ≡ false = ground arith in rw e

-- A number below 1000 has one digit, two or three.
print_uint-one : (n : ℕ) → n < 10 → print_uint n ≡ (b'0' + n) ∷ []
unfolding print_uint
print_uint-one n h = print_digits-last 19 n [] h

print_uint-two : (n : ℕ) → 9 < n → n < 100 → print_uint n ≡ (b'0' + n / 10) ∷ (b'0' + n % 10) ∷ []
unfolding print_uint
print_uint-two n l h = print_digits-more 19 n [] l ∙ print_digits-last 18 (n / 10) _ (omega arith)

print_uint-three :
    (n : ℕ)
    → 99 < n
    → n < 1000
    → print_uint n ≡ (b'0' + n / 10 / 10) ∷ (b'0' + n / 10 % 10) ∷ (b'0' + n % 10) ∷ []
unfolding print_uint
print_uint-three n l h =
    print_digits-more 19 n [] (omega arith)
    ∙ print_digits-more 18 (n / 10) _ (omega arith)
    ∙ print_digits-last 17 (n / 10 / 10) _ (omega arith)

-- The reader of an octet gets back the number that was printed.
abbrev ReadBack : ℕ → Text → Type 0
ReadBack n s = read_number 10 255 (some 3) false (print_uint n ++ s) ≡ some (n, s)

read_number-one : (n : ℕ) (s : Text) → Stops s → n < 10 → ReadBack n s
read_number-one n s h l = rw (print_uint-one n l) (unfold read_number in rw read (ground arith))
  where
    read : read_digits 10 0 0 ((b'0' + n) ∷ s) ≡ (n, 1, s)
    read = read_digits-digit 0 0 n n 1 s l (omega arith) refl ∙ read_digits-Stops n 1 s h

read_number-two : (n : ℕ) (s : Text) → Stops s → 9 < n → n < 100 → ReadBack n s
read_number-two n s h g l = rw (print_uint-two n g l) (unfold read_number in rw read (ground arith))
  where
    read : read_digits 10 0 0 ((b'0' + n / 10) ∷ (b'0' + n % 10) ∷ s) ≡ (n, 2, s)
    read =
        read_digits-digit 0 0 (n / 10) (n / 10) 1 _ (omega arith) (omega arith) refl
        ∙ read_digits-digit (n / 10) 1 (n % 10) n 2 s (omega arith) (omega arith) refl
        ∙ read_digits-Stops n 2 s h

read_number-three : (n : ℕ) (s : Text) → Stops s → 99 < n → n < 256 → ReadBack n s
read_number-three n s h g l =
    rw (print_uint-three n g (omega arith)) (unfold read_number in rw read (ground arith))
  where
    read :
        read_digits 10 0 0 ((b'0' + n / 10 / 10) ∷ (b'0' + n / 10 % 10) ∷ (b'0' + n % 10) ∷ s)
        ≡ (n, 3, s)
    read =
        read_digits-digit 0 0 (n / 10 / 10) (n / 10 / 10) 1 _ (omega arith) (omega arith) refl
        ∙ read_digits-digit (n / 10 / 10) 1 (n / 10 % 10) (n / 10) 2 _ (omega arith) (omega arith)
            refl
        ∙ read_digits-digit (n / 10) 2 (n % 10) n 3 s (omega arith) (omega arith) refl
        ∙ read_digits-Stops n 3 s h

read_number-print_uint : (n : ℕ) (s : Text) → Stops s → n < 256 → ReadBack n s
read_number-print_uint n s h l = elim (Bool-cases (ltb n 10)) [
  | inl e ↦ read_number-one n s h (ground arith)
  | inr e ↦ elim (Bool-cases (ltb n 100)) [
    | inl f ↦ read_number-two n s h (ground arith) (ground arith)
    | inr f ↦ read_number-three n s h (ground arith) l
  ]
]

first_octet :
    (n : ℕ) (s : Text) → Stops s → n < 256 → read_octet 0 (print_uint n ++ s) ≡ some (n, s)
unfolding read_octet
first_octet n s h l = read_number-print_uint n s h l

next_octet :
    (i n : ℕ) (s : Text)
    → Stops s
    → n < 256
    → read_octet (suc i) (b'.' ∷ (print_uint n ++ s)) ≡ some (n, s)
unfolding read_octet
next_octet i n s h l = read_number-print_uint n s h l

-- A further number behind a dot, and the four numbers of an address, each with what follows.
abbrev further : ℕ → Text → Text
further n s = b'.' ∷ (print_uint n ++ s)

further-Stops : (n : ℕ) (s : Text) → Stops (further n s)
unfolding to_digit
further-Stops n s = refl

abbrev dotted : ℕ → ℕ → ℕ → ℕ → Text → Text
dotted a b c d s = print_uint a ++ further b (further c (further d s))

read_ipv4_addr-dotted :
    (a b c d : ℕ) (s : Text)
    → Stops s
    → a < 256
    → b < 256
    → c < 256
    → d < 256
    → read_ipv4_addr (dotted a b c d s) ≡ some ((a, b, c, d), s)
unfolding read_ipv4_addr
read_ipv4_addr-dotted a b c d s h la lb lc ld = rw (
  first_octet a (further b (further c (further d s))) (further-Stops b (further c (further d s)))
      la,
  next_octet 0 b (further c (further d s)) (further-Stops c (further d s)) lb,
  next_octet 1 c (further d s) (further-Stops d s) lc,
  next_octet 2 d s h ld,
)

ipv4_text-dotted : (a b c d : ℕ) → ipv4_text a b c d ≡ dotted a b c d []
unfolding ipv4_text
ipv4_text-dotted a b c d = rw (append-nil (print_uint d))

-- The text of an IPv4 address is read back, whatever the port.
pub parse_ip-ip_text :
    (a b c d port : ℕ)
    → a < 256
    → b < 256
    → c < 256
    → d < 256
    → parse_ip (ip_text (v4 a b c d port)) port ≡ some (v4 a b c d port)
unfolding parse_ip ip_text
parse_ip-ip_text a b c d port la lb lc ld =
    rw (ipv4_text-dotted a b c d) (rw (read_ipv4_addr-dotted a b c d [] tt la lb lc ld, parse_ip))

print_uint-is_ascii : (n : ℕ) → n < 256 → is_ascii (print_uint n) ≡ true
print_uint-is_ascii n l = elim (Bool-cases (ltb n 10)) [
  | inl e ↦ rw (print_uint-one n (ground arith)) (ground arith)
  | inr e ↦ elim (Bool-cases (ltb n 100)) [
    | inl f ↦ rw (print_uint-two n (ground arith) (ground arith)) (ground arith)
    | inr f ↦ rw (print_uint-three n (ground arith) (ground arith)) (ground arith)
  ]
]

-- An IPv4 address is printed in ASCII, and not as an empty text.
pub ip_text-is_ascii :
    (a b c d port : ℕ)
    → a < 256
    → b < 256
    → c < 256
    → d < 256
    → is_ascii (ip_text (v4 a b c d port)) ≡ true
unfolding ip_text
ip_text-is_ascii a b c d port la lb lc ld = rw (ipv4_text-dotted a b c d) (
    is_ascii-append (print_uint a) _ (print_uint-is_ascii a la) (
      is_ascii-append (print_uint b) _ (print_uint-is_ascii b lb) (
        is_ascii-append (print_uint c) _ (print_uint-is_ascii c lc)
          (is_ascii-append (print_uint d) [] (print_uint-is_ascii d ld) refl))))

append-is_empty : (s : Text) (c : ℕ) (t : Text) → is_empty (s ++ (c ∷ t)) ≡ false
append-is_empty [] c t = refl
append-is_empty (d ∷ s) c t = refl

pub ip_text-is_empty : (a b c d port : ℕ) → is_empty (ip_text (v4 a b c d port)) ≡ false
unfolding ip_text ipv4_text
ip_text-is_empty a b c d port = append-is_empty (print_uint a) b'.' _
