-- ===== src/Io/Framing/Chunks.antt =====
-- The messages do not depend on how the stream is cut into chunks.
use gmv_pjsip.Prelude.{
  ℕ, suc, zero, ◌<◌, ◌≡◌, refl, sym, ap, ◌∙◌, List, [], ◌∷◌, ◌++◌, none, some, arith, length,
  Option-cases, inl, inr, length-append, append-nil, append_assoc,
}
use gmv_pjsip.Text.{find}
use gmv_pjsip.Io.Framing.{framed, Bytes, next_sip_message, drain_messages, read_chunks}
use gmv_pjsip.Io.Framing.Split.{next_sip_message-append}

-- The loop takes `ms` off the buffer `b` and stops with `r`.
pub data Drains : Bytes → List Bytes → Bytes → Type 0 where
  stop : {b : Bytes} → next_sip_message b ≡ none → Drains b [] b
  take_off :
      {b b' : Bytes} {m : Bytes} {ms : List Bytes} {r : Bytes}
      → next_sip_message b ≡ some (m, b')
      → Drains b' ms r
      → Drains b (m ∷ ms) r

Drains-cast :
    {b b' : Bytes} {ms ms' : List Bytes} {r r' : Bytes}
    → b ≡ b'
    → ms ≡ ms'
    → r ≡ r'
    → Drains b ms r
    → Drains b' ms' r'
Drains-cast p q u d = rw (← p, ← q, ← u) d

pub drain_messages-Drains :
    (fuel : ℕ) (b : Bytes) (ms : List Bytes) (r : Bytes)
    → drain_messages fuel b ≡ some (ms, r)
    → Drains b ms r
unfolding drain_messages
drain_messages-Drains zero b ms r h = cc
drain_messages-Drains (suc f) b ms r h = elim (Option-cases (next_sip_message b)) [
  | inl e ↦ Drains-cast refl (ground arith) (ground arith) (stop e)
  | inr ((m, b'), e) ↦ elim (Option-cases (drain_messages f b')) [
    | inl e' ↦ absurd (ground arith)
    | inr ((ms', r'), e') ↦
        Drains-cast refl (ground arith) (ground arith)
          (take_off e (drain_messages-Drains f b' ms' r' e'))
  ]
]

pub Drains-drain_messages :
    {b : Bytes} {ms : List Bytes} {r : Bytes} (fuel : ℕ)
    → length ms < fuel
    → Drains b ms r
    → drain_messages fuel b ≡ some (ms, r)
unfolding drain_messages
Drains-drain_messages zero h d = absurd (omega arith)
Drains-drain_messages (suc f) h (stop e) = rw (e, drain_messages)
Drains-drain_messages (suc f) h (take_off e d) =
    rw (e, drain_messages) (rw (Drains-drain_messages f (omega arith) d))

pub Drains-stopped :
    {b : Bytes} {ms : List Bytes} {r : Bytes} → Drains b ms r → next_sip_message r ≡ none
Drains-stopped (stop e) = e
Drains-stopped (take_off e d) = Drains-stopped d

-- An empty buffer holds no message.
empty_waits : next_sip_message [] ≡ none
unfolding next_sip_message framed find
empty_waits = refl

-- How the loop over `x` and more bytes begins: it takes off what it takes off `x` alone.
pub record Prefix (x y : Bytes) (ms : List Bytes) (r : Bytes) : Type 0 where
  pub first : List Bytes
  pub between : Bytes
  pub later : List Bytes
  pub whole : ms ≡ first ++ later
  pub drains_first : Drains x first between
  pub drains_later : Drains (between ++ y) later r

Drains-Prefix :
    (x y : Bytes) {b : Bytes} {ms : List Bytes} {r : Bytes}
    → b ≡ x ++ y
    → Drains b ms r
    → Prefix x y ms r
Drains-Prefix x y {b} p (stop e) = elim (Option-cases (next_sip_message x)) [
  | inl e' ↦ record {
    first = [];
    between = x;
    later = [];
    whole = refl;
    drains_first = stop e';
    drains_later = Drains-cast p refl refl (stop e);
  }
  | inr ((m', x'), e') ↦ absurd (cc (next_sip_message-append x m' x' y e', ap next_sip_message p))
]
Drains-Prefix x y {b} p (take_off {b' = b'} {m = m} {ms = ms} e d) =
    elim (Option-cases (next_sip_message x)) [
      | inl e' ↦ record {
        first = [];
        between = x;
        later = m ∷ ms;
        whole = refl;
        drains_first = stop e';
        drains_later = Drains-cast p refl refl (take_off e d);
      }
      | inr ((m', x'), e') ↦
          let q = next_sip_message-append x m' x' y e' in
          let rest = Drains-Prefix x' y (ground (arith, q, ap next_sip_message p)) d in
          record {
            first = m' ∷ rest.first;
            between = rest.between;
            later = rest.later;
            whole = ground (arith, q, ap next_sip_message p, rest.whole);
            drains_first = take_off e' rest.drains_first;
            drains_later = rest.drains_later;
          }
    ]

-- All the bytes that arrive.
abbrev pub flatten : List Bytes → Bytes
flatten [] = []
flatten (c ∷ cs) = c ++ flatten cs

Drains-none :
    {b : Bytes} {ms : List Bytes} {r : Bytes}
    → next_sip_message b ≡ none
    → Drains b ms r
    → (ms ≡ []) × (r ≡ b)
Drains-none e (stop _) = (refl, refl)
Drains-none e (take_off e' d) = absurd (cc)

read_chunks-Drains :
    (cs : List Bytes) (b : Bytes) {ms : List Bytes} {r : Bytes} (fuel : ℕ)
    → next_sip_message b ≡ none
    → length ms < fuel
    → Drains (b ++ flatten cs) ms r
    → read_chunks fuel b cs ≡ some (ms, r)
unfolding read_chunks
read_chunks-Drains [] b fuel e h d =
    let (p, q) = Drains-none e (Drains-cast (append-nil b) refl refl d) in rw (p, q)
read_chunks-Drains (c ∷ cs) b {r = r} fuel e h d =
    let k = Drains-Prefix (b ++ c) (flatten cs) (sym (append_assoc b c (flatten cs))) d in
    let sizes = ap length k.whole ∙ length-append k.first k.later in
    let now = Drains-drain_messages fuel (omega arith) k.drains_first in
    let next =
      read_chunks-Drains cs k.between fuel (Drains-stopped k.drains_first) (omega arith)
        k.drains_later in
    rw (now, read_chunks) (rw next (ap (λ x. some (x, r)) (sym k.whole)))

-- However the stream is cut into chunks, the read loop delivers the messages, and keeps the bytes,
-- that one pass over the whole stream does, if that pass ends; the fuel of the read loop is enough
-- once it exceeds the number of messages.
pub read_chunks-drain_messages :
    (cs : List Bytes) (fuel fuel' : ℕ) (ms : List Bytes) (r : Bytes)
    → drain_messages fuel (flatten cs) ≡ some (ms, r)
    → length ms < fuel'
    → read_chunks fuel' [] cs ≡ some (ms, r)
read_chunks-drain_messages cs fuel fuel' ms r h lt =
    read_chunks-Drains cs [] fuel' empty_waits lt (drain_messages-Drains fuel (flatten cs) ms r h)
