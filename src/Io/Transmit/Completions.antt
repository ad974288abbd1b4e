-- ===== src/Io/Transmit/Completions.antt =====
-- Whether every send that src/io.rs takes on is reported back.
use gmv_pjsip.Prelude.{
  ℕ, ◌+◌, ◌<◌, ◌≡◌, refl, Bool, true, false, List, [], ◌∷◌, ◌++◌, Option, none, some, arith, ltb,
  ◌==◌, if◌then◌else◌, length, drop, Option-cases, inl, inr, Bool-cases, ◌&&◌,
}
use gmv_pjsip.Prelude.Int.{pos}
use gmv_pjsip.Transport.{SipTransportProtocol, udp, tcp, tls}
use gmv_pjsip.Runtime.Types.{SipTransmit}
use gmv_pjsip.Runtime.State.{
  SendResult, failed, RuntimeIoCommand, receive, send_done, transport_closed,
}
use gmv_pjsip.Io.Transmit.{
  Writer, writer_capacity, Tasks, push_command, try_queue, queue_at, write_reliable, write_transmit,
  write_next,
}

abbrev pub one_if : Bool → ℕ
one_if true = 1
one_if false = 0

-- How often a send waits in a channel.
abbrev pub waiting : ℕ → List SipTransmit → ℕ
waiting n [] = 0
waiting n (t ∷ ts) = one_if (t.send_id == n) + waiting n ts

abbrev pub owed : ℕ → List (ℕ × Writer) → ℕ
owed n [] = 0
owed n ((k, w) ∷ ws) = waiting n w.pending + owed n ws

-- How often a send is reported as complete.
abbrev pub reported : ℕ → List RuntimeIoCommand → ℕ
reported n [] = 0
reported n (send_done m r ∷ cs) = one_if (m == n) + reported n cs
reported n (receive a p l r d ∷ cs) = reported n cs
reported n (transport_closed a p l r s ∷ cs) = reported n cs

pub waiting-append :
    (n : ℕ) (ts : List SipTransmit) (t : SipTransmit)
    → waiting n (ts ++ (t ∷ [])) ≡ waiting n ts + one_if (t.send_id == n)
waiting-append n [] t = omega arith
waiting-append n (u ∷ ts) t = omega (arith, waiting-append n ts t)

reported-append :
    (n : ℕ) (cs : List RuntimeIoCommand) (m : ℕ) (r : SendResult)
    → reported n (cs ++ (send_done m r ∷ [])) ≡ reported n cs + one_if (m == n)
reported-append n [] m r = omega arith
reported-append n (send_done k q ∷ cs) m r = omega (arith, reported-append n cs m r)
reported-append n (receive a p l q d ∷ cs) m r = reported-append n cs m r
reported-append n (transport_closed a p l q s ∷ cs) m r = reported-append n cs m r

try_queue-waiting :
    (n : ℕ) (t : SipTransmit) (w w' : Writer)
    → try_queue t w ≡ some w'
    → waiting n w'.pending ≡ waiting n w.pending + one_if (t.send_id == n)
unfolding try_queue
try_queue-waiting n t w w' e =
    elim (Bool-cases (w.receiving && ltb (length w.pending) writer_capacity)) [
      | inl y ↦
          let same : some (record w { pending = w.pending ++ (t ∷ []) }) ≡ some w' =
            rw (y, try_queue) at e in
          rw (← some-same _ w' same) (waiting-append n w.pending t)
      | inr m ↦ absurd (none-some w' (rw (m, try_queue) at e))
    ]
  where
    some-same : (a b : Writer) → some a ≡ some b → a ≡ b
    some-same a b z = cc

    none-some : (b : Writer) → none ≡ some b → ⊥
    none-some b z = ground arith

-- The two ways in which a request gets into the table.
queued_here :
    (n k : ℕ) (t : SipTransmit) (w : Writer) (ws ws' : List (ℕ × Writer)) (o : Option Writer)
    → try_queue t w ≡ o
    → (elim o [ none ↦ none | some w' ↦ some ((k, w') ∷ ws) ]) ≡ some ws'
    → owed n ws' ≡ waiting n w.pending + owed n ws + one_if (t.send_id == n)
queued_here n k t w ws ws' none z e = absurd (ground arith)
queued_here n k t w ws ws' (some w') z e =
    let same : (k, w') ∷ ws ≡ ws' = cc in rw (← same) (omega (arith, try_queue-waiting n t w w' z))

queued_later :
    (n k : ℕ) (t : SipTransmit) (w : Writer) (ws ws' : List (ℕ × Writer))
    (o : Option (List (ℕ × Writer)))
    → ((vs : List (ℕ × Writer)) → o ≡ some vs → owed n vs ≡ owed n ws + one_if (t.send_id == n))
    → (elim o [ none ↦ none | some vs ↦ some ((k, w) ∷ vs) ]) ≡ some ws'
    → owed n ws' ≡ waiting n w.pending + owed n ws + one_if (t.send_id == n)
queued_later n k t w ws ws' none h e = absurd (ground arith)
queued_later n k t w ws ws' (some vs) h e =
    let same : (k, w) ∷ vs ≡ ws' = cc in rw (← same) (omega (arith, h vs refl))

pub queue_at-owed :
    (n id : ℕ) (t : SipTransmit) (ws ws' : List (ℕ × Writer))
    → queue_at id t ws ≡ some ws'
    → owed n ws' ≡ owed n ws + one_if (t.send_id == n)
unfolding queue_at
queue_at-owed n id t [] ws' e = absurd (ground arith)
queue_at-owed n id t ((k, w) ∷ ws) ws' e = elim (Bool-cases (k == id)) [
  | inl y ↦ queued_here n k t w ws ws' (try_queue t w) refl (rw (y, queue_at) at e)
  | inr m ↦
      queued_later n k t w ws ws' (queue_at id t ws) (λ vs. queue_at-owed n id t ws vs)
        (rw (m, queue_at) at e)
]

push_command-reported :
    (n m : ℕ) (r : SendResult) (tasks : Tasks)
    → length tasks.commands < tasks.capacity
    → (reported n (push_command (send_done m r) tasks).commands
        ≡ reported n tasks.commands + one_if (m == n))
      × ((push_command (send_done m r) tasks).writers ≡ tasks.writers)
unfolding push_command
push_command-reported n m r tasks room = ground (arith, reported-append n tasks.commands m r)

-- What a send adds to the reports and to the channels, taken together.
abbrev Accounted : ℕ → ℕ → Tasks → Tasks → Type 0
Accounted n m before behind =
    reported n behind.commands + owed n behind.writers
    ≡ reported n before.commands + owed n before.writers + one_if (m == n)

push_command-Accounted :
    (n m : ℕ) (r : SendResult) (tasks : Tasks)
    → length tasks.commands < tasks.capacity
    → Accounted n m tasks (push_command (send_done m r) tasks)
push_command-Accounted n m r tasks room =
    let (one, same) = push_command-reported n m r tasks room in rw same (omega (arith, one))

write_reliable-Accounted :
    (n : ℕ) (t : SipTransmit) (tasks : Tasks)
    → length tasks.commands < tasks.capacity
    → Accounted n t.send_id tasks (write_reliable t tasks)
unfolding write_reliable
write_reliable-Accounted n t tasks room =
    elim (Option-cases (queue_at t.association_id t tasks.writers)) [
      | inl e ↦
          rw (e, write_reliable) (push_command-Accounted n t.send_id (failed (pos 1)) tasks room)
      | inr (ws, e) ↦
          rw (e, write_reliable)
            (omega (arith, queue_at-owed n t.association_id t tasks.writers ws e))
    ]

-- While the queue of commands has room, `write_transmit` accounts for the send once and for no other:
-- the number of reports of a send in the queue, together with the number of times that it waits for a
-- writer task, grows by one for the send at hand, whatever its protocol, the table of the writers and
-- the answer of the socket, and stays the same for every other send.
pub write_transmit-reported :
    (n : ℕ) (answer : SendResult) (t : SipTransmit) (tasks : Tasks)
    → length tasks.commands < tasks.capacity
    → reported n (write_transmit answer t tasks).commands
        + owed n (write_transmit answer t tasks).writers
      ≡ reported n tasks.commands + owed n tasks.writers + one_if (t.send_id == n)
unfolding write_transmit
write_transmit-reported n answer t tasks room = by_protocol t.protocol refl
  where
    by_protocol :
        (p : SipTransportProtocol)
        → t.protocol ≡ p
        → Accounted n t.send_id tasks (write_transmit answer t tasks)
    by_protocol udp e =
        rw (e, write_transmit) (push_command-Accounted n t.send_id answer tasks room)
    by_protocol tcp e = rw (e, write_transmit) (write_reliable-Accounted n t tasks room)
    by_protocol tls e = rw (e, write_transmit) (write_reliable-Accounted n t tasks room)

-- A round of the writer task reports the first send that waits, and the others wait on if the write
-- succeeds; if it fails, those behind the first are neither reported nor wait any longer.
pub write_next-reported :
    (n : ℕ) (written : Bool) (w : Writer)
    → reported n (write_next written w).1
        + waiting n (write_next written w).0.pending
        + (if written then 0 else waiting n (drop 1 w.pending))
      ≡ waiting n w.pending
unfolding write_next
write_next-reported n written w = by_pending written w.pending refl
  where
    by_pending :
        (written : Bool) (ts : List SipTransmit)
        → w.pending ≡ ts
        → reported n (write_next written w).1
            + waiting n (write_next written w).0.pending
            + (if written then 0 else waiting n (drop 1 w.pending))
          ≡ waiting n w.pending
    by_pending true [] e = rw (e, write_next) (rw e (omega arith))
    by_pending false [] e = rw (e, write_next) (rw e (omega arith))
    by_pending true (t ∷ ts) e = rw (e, write_next) (omega arith)
    by_pending false (t ∷ ts) e = rw (e, write_next) (omega arith)
