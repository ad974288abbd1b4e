-- ===== src/Io/Transmit/Delivery.antt =====
-- The writer task of src/io.rs over as many rounds as it takes.
use gmv_pjsip.Prelude.{
  ℕ, zero, suc, ◌≡◌, refl, ap, Bool, true, ◌&&◌, List, [], ◌∷◌, ◌++◌, some, arith, ltb, length, map,
  Bool-cases, inl, inr,
}
use gmv_pjsip.Runtime.Types.{SipTransmit}
use gmv_pjsip.Runtime.State.{sent, RuntimeIoCommand, send_done}
use gmv_pjsip.Io.Transmit.{Writer, writer_capacity, try_queue, write_next}

-- Rounds in which every write succeeds, with what they report.
abbrev pub write_rounds : ℕ → Writer → Writer × List RuntimeIoCommand
write_rounds zero w = (w, [])
write_rounds (suc n) w =
    let (w', reports) = write_next true w in
    let (w'', later) = write_rounds n w' in (w'', reports ++ later)

-- The report of a send whose bytes were all written.
abbrev pub written_report : SipTransmit → RuntimeIoCommand
written_report t = send_done t.send_id (sent (length t.payload))

write_rounds-snoc :
    (r : Bool) (ts : List SipTransmit) (t : SipTransmit)
    → write_rounds (suc (length ts)) (record { pending = ts ++ (t ∷ []); receiving = r })
      ≡ (record { pending = []; receiving = r }, map written_report ts ++ (written_report t ∷ []))
unfolding write_next
write_rounds-snoc r [] t = refl
write_rounds-snoc r (u ∷ ts) t = ap (λ p. (p.0, written_report u ∷ p.1)) (write_rounds-snoc r ts t)

-- A request that the channel takes is written and reported: while the stream takes the bytes, the
-- round that reports it comes after as many rounds as requests waited in front of it, these are
-- reported before it in their order, and the channel is empty then.
pub write_rounds-try_queue :
    (t : SipTransmit) (w w' : Writer)
    → try_queue t w ≡ some w'
    → write_rounds (suc (length w.pending)) w'
      ≡ (record w { pending = [] }, map written_report w.pending ++ (written_report t ∷ []))
unfolding try_queue
write_rounds-try_queue t w w' e =
    elim (Bool-cases (w.receiving && ltb (length w.pending) writer_capacity)) [
      | inl y ↦
          let same : record w { pending = w.pending ++ (t ∷ []) } ≡ w' = ground arith in
          rw (← same) (write_rounds-snoc w.receiving w.pending t)
      | inr m ↦ absurd (ground arith)
    ]
