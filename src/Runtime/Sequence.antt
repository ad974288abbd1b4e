-- ===== src/Runtime/Sequence.antt =====
-- `next_atomic_value` and `next_sip_cseq` of src/runtime.rs: the counter of CSeq numbers, as one
-- caller sees it and as several threads share it.
pub mod Interleaving
use gmv_pjsip.Prelude.{
  ℕ, zero, suc, ◌+◌, ◌-◌, ◌%◌, ◌^◌, ◌≤◌, ◌<◌, ◌≡◌, ◌≢◌, refl, List, [], ◌∷◌, Option, none, some,
  arith, leb, ltb, ◌==◌, if◌then◌else◌, length,
}

abbrev pub max_sip_cseq : ℕ
max_sip_cseq = 2 ^ 31 - 1

-- The value that follows `current`.
unfoldable pub advance : ℕ → ℕ → ℕ
advance max current = if leb max current then 1 else current + 1

-- With no other thread about, the exchange succeeds at once: the new counter, and the value.
pub next_atomic_value : ℕ → ℕ → ℕ × ℕ
next_atomic_value sequence max = (advance max sequence, advance max sequence)

unfoldable pub next_sip_cseq : ℕ → ℕ × ℕ
unfolding next_atomic_value advance
next_sip_cseq sequence = next_atomic_value sequence max_sip_cseq

-- Whatever the counter holds, `next_sip_cseq` yields a CSeq number of SIP: neither zero nor above
-- 2^31 - 1.
pub next_sip_cseq_range :
    (sequence : ℕ) → (1 ≤ (next_sip_cseq sequence).1) × ((next_sip_cseq sequence).1 ≤ max_sip_cseq)
unfolding next_sip_cseq
next_sip_cseq_range sequence = ground arith
