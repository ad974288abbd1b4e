-- ===== src/Tests/Sequence.antt =====
-- The counter of CSeq numbers, with one caller and with two threads.
use mathlib.Core.List.{Nodup}
use gmv_pjsip.Prelude.{ℕ, ◌≤◌, ◌≡◌, refl, [], ◌∷◌, some, none, arith, ◌==◌, if◌then◌else◌}
use gmv_pjsip.Runtime.Sequence.{max_sip_cseq, advance, next_sip_cseq, next_sip_cseq_range}
use gmv_pjsip.Runtime.Sequence.Interleaving.{
  Shared, Reach, here, next, load, exchange, retry, started, issued-values, issued-Nodup,
}

-- The test of the source: 1, 2, 3 and 1 again.
wraps : (advance 3 0 ≡ 1) × (advance 3 1 ≡ 2) × (advance 3 2 ≡ 3) × (advance 3 3 ≡ 1)
unfolding advance
wraps = (refl, refl, refl, refl)

next_sip_cseq_range_example :
    (1 ≤ (next_sip_cseq max_sip_cseq).1) × ((next_sip_cseq max_sip_cseq).1 ≤ max_sip_cseq)
next_sip_cseq_range_example = next_sip_cseq_range max_sip_cseq

abbrev loads : ℕ → Shared → Shared
loads i s = record s { threads = λ j. if j == i then some s.sequence else s.threads j }

abbrev takes : ℕ → ℕ → Shared → Shared
takes i current s = record {
  sequence = advance 3 current;
  threads = λ j. if j == i then none else s.threads j;
  issued = advance 3 current ∷ s.issued;
}

-- Both threads load 0. Thread 0 takes 1, and thread 1 has to try again.
abbrev contended : Shared
contended = takes 1 1 (loads 1 (takes 0 0 (loads 1 (loads 0 (started 3)))))

contended_reached : Reach 3 (started 3) contended
unfolding advance
contended_reached =
    next
      (next (next (next (next here (load 0 refl)) (load 1 refl)) (exchange 0 0 refl refl))
        (retry 1 0 refl))
      (exchange 1 1 refl refl)

issued-values_example : contended.issued ≡ 2 ∷ 1 ∷ []
issued-values_example = issued-values 3 (omega arith) contended_reached

issued-Nodup_example : Nodup contended.issued
issued-Nodup_example = issued-Nodup 3 (omega arith) contended_reached (omega arith)
