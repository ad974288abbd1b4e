-- ===== src/Io/Log/OneLine.antt =====
-- What the escaping of src/io.rs keeps of a payload.
use gmv_pjsip.Prelude.{ℕ, ◌≡◌, refl, Bool, false, ◌||◌, [], ◌∷◌, arith, ◌==◌, if◌then◌else◌, any}
use gmv_pjsip.Text.{Text, codes}
use gmv_pjsip.Io.Framing.{Bytes}
use gmv_pjsip.Io.Log.{Decoders, replace, decode_sip_payload, escape_payload}

abbrev pub is_break : ℕ → Bool
is_break c = c == b'\r' || c == b'\n'

-- The character that an escape stands for.
abbrev unescaped : ℕ → ℕ
unescaped c = if c == b'r' then b'\r' else if c == b'n' then b'\n' else c

-- A reader of the log: a backslash and the character behind it stand for one character.
unfoldable pub unescape : Text → Text
unescape [] = []
unescape (c ∷ []) = c ∷ []
unescape (c ∷ d ∷ t) =
    let escaped = unescape t in
    let plain = unescape (d ∷ t) in if c == b'\\' then unescaped d ∷ escaped else c ∷ plain

-- The three replacements in the order of the source.
abbrev escape : Text → Text
escape t =
    replace b'\n' (codes "\\n") (replace b'\r' (codes "\\r") (replace b'\\' (codes "\\\\") t))

escape-is_break : (t : Text) → any is_break (escape t) ≡ false
unfolding replace
escape-is_break [] = refl
escape-is_break (c ∷ t) = ground (arith, escape-is_break t)

unescape-plain : (c : ℕ) (t : Text) → (c == b'\\') ≡ false → unescape (c ∷ t) ≡ c ∷ unescape t
unfolding unescape
unescape-plain c [] e = refl
unescape-plain c (d ∷ t) e = rw (e, unescape)

-- One character after the other.
escape-cons :
    (c : ℕ) (t : Text)
    → escape (c ∷ t) ≡ (
        if c == b'\\'
        then b'\\' ∷ b'\\' ∷ escape t
        else if c == b'\r'
        then b'\\' ∷ b'r' ∷ escape t
        else if c == b'\n'
        then b'\\' ∷ b'n' ∷ escape t
        else c ∷ escape t)
unfolding replace
escape-cons c t = ground arith

unescape-escape : (t : Text) → unescape (escape t) ≡ t
unfolding replace unescape
unescape-escape [] = refl
unescape-escape (c ∷ t) =
    rw (escape-cons c t) (ground (arith, unescape-escape t, unescape-plain c (escape t)))

module _ (decoders : Decoders) where
  -- A payload takes one line of the log, whatever its bytes and its encoding are, and the decoded text
  -- is read back from the line.
  pub escape_payload-unescape :
      (payload : Bytes)
      → (any is_break (escape_payload decoders payload) ≡ false)
        × (unescape (escape_payload decoders payload) ≡ decode_sip_payload decoders payload)
  unfolding escape_payload
  escape_payload-unescape payload = (
    escape-is_break (decode_sip_payload decoders payload),
    unescape-escape (decode_sip_payload decoders payload),
  )
