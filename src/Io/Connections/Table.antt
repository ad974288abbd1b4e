-- ===== src/Io/Connections/Table.antt =====
-- The table of the writers in src/io.rs, by its keys.
use gmv_pjsip.Prelude.{
  ℕ, ◌≡◌, refl, inl, inr, Bool, true, false, ◌&&◌, ◌||◌, not, List, [], ◌∷◌, some, arith, ◌==◌, all,
  Option-cases,
}
use gmv_pjsip.Prelude.Int.{pos}
use gmv_pjsip.Transport.{SipTransportProtocol, udp, tcp, tls}
use gmv_pjsip.Runtime.Types.{SipTransmit}
use gmv_pjsip.Runtime.State.{
  SendResult, failed, RuntimeIoCommand, receive, send_done, transport_closed,
}
use gmv_pjsip.Io.Transmit.{
  Writer, Tasks, push_command, queue_at, write_reliable, write_transmit, write_next,
}
use gmv_pjsip.Io.Connections.{detach, write_round, push_all}

abbrev pub has_writer : ℕ → List (ℕ × Writer) → Bool
has_writer i [] = false
has_writer i ((k, w) ∷ ws) = k == i || has_writer i ws

-- A report of a send.
abbrev pub is_report : RuntimeIoCommand → Bool
is_report (receive k p l r d) = false
is_report (send_done n r) = true
is_report (transport_closed k p l r s) = false

pub has_writer-detach :
    (j i : ℕ) (ws : List (ℕ × Writer))
    → has_writer j (detach i ws).0 ≡ (has_writer j ws && not (j == i))
unfolding detach
has_writer-detach j i [] = refl
has_writer-detach j i ((k, w) ∷ ws) = ground (arith, has_writer-detach j i ws)

pub push_command-writers :
    (c : RuntimeIoCommand) (t : Tasks) → (push_command c t).writers ≡ t.writers
unfolding push_command
push_command-writers c t = ground arith

pub push_all-writers :
    (cs : List RuntimeIoCommand) (t : Tasks) → (push_all cs t).writers ≡ t.writers
push_all-writers [] t = refl
push_all-writers (c ∷ cs) t = rw (push_all-writers cs (push_command c t)) (push_command-writers c t)

queue_at-has_writer :
    (j i : ℕ) (t : SipTransmit) (ws ws' : List (ℕ × Writer))
    → queue_at i t ws ≡ some ws'
    → has_writer j ws' ≡ has_writer j ws
unfolding queue_at
queue_at-has_writer j i t [] ws' e = absurd (ground arith)
queue_at-has_writer j i t ((k, w) ∷ ws) ws' e = elim (Option-cases (queue_at i t ws)) [
  | inl n ↦ ground (arith, n)
  | inr (vs, y) ↦ ground (arith, y, queue_at-has_writer j i t ws vs y)
]

-- Only a report is queued by a send, if anything, and the keys stay.
pub data Reports (t t' : Tasks) : Type 0 where
  quiet : t'.commands ≡ t.commands → Reports t t'
  reports : (n : ℕ) (r : SendResult) → t' ≡ push_command (send_done n r) t → Reports t t'

write_reliable-Reports : (t : SipTransmit) (tasks : Tasks) → Reports tasks (write_reliable t tasks)
unfolding write_reliable
write_reliable-Reports t tasks = elim (Option-cases (queue_at t.association_id t tasks.writers)) [
  | inl e ↦ reports t.send_id (failed (pos 1)) (rw (e, write_reliable))
  | inr (ws, e) ↦ quiet (rw (e, write_reliable))
]

pub write_transmit-Reports :
    (answer : SendResult) (t : SipTransmit) (tasks : Tasks)
    → Reports tasks (write_transmit answer t tasks)
unfolding write_transmit
write_transmit-Reports answer t tasks = by_protocol t.protocol refl
  where
    by_protocol :
        (p : SipTransportProtocol) → t.protocol ≡ p → Reports tasks (write_transmit answer t tasks)
    by_protocol udp e = reports t.send_id answer (rw (e, write_transmit))
    by_protocol tcp e = rw (e, write_transmit) (write_reliable-Reports t tasks)
    by_protocol tls e = rw (e, write_transmit) (write_reliable-Reports t tasks)

write_reliable-has_writer :
    (j : ℕ) (t : SipTransmit) (tasks : Tasks)
    → has_writer j (write_reliable t tasks).writers ≡ has_writer j tasks.writers
unfolding write_reliable
write_reliable-has_writer j t tasks =
    elim (Option-cases (queue_at t.association_id t tasks.writers)) [
      | inl e ↦ rw (e, write_reliable, push_command-writers _ tasks)
      | inr (ws, e) ↦
          rw (e, write_reliable) (queue_at-has_writer j t.association_id t tasks.writers ws e)
    ]

pub write_transmit-has_writer :
    (j : ℕ) (answer : SendResult) (t : SipTransmit) (tasks : Tasks)
    → has_writer j (write_transmit answer t tasks).writers ≡ has_writer j tasks.writers
unfolding write_transmit
write_transmit-has_writer j answer t tasks = by_protocol t.protocol refl
  where
    by_protocol :
        (p : SipTransportProtocol)
        → t.protocol ≡ p
        → has_writer j (write_transmit answer t tasks).writers ≡ has_writer j tasks.writers
    by_protocol udp e = rw (e, write_transmit, push_command-writers _ tasks)
    by_protocol tcp e = rw (e, write_transmit) (write_reliable-has_writer j t tasks)
    by_protocol tls e = rw (e, write_transmit) (write_reliable-has_writer j t tasks)

pub write_round-has_writer :
    (j : ℕ) (written : Bool) (i : ℕ) (ws : List (ℕ × Writer))
    → has_writer j (write_round written i ws).0 ≡ has_writer j ws
unfolding write_round
write_round-has_writer j written i [] = refl
write_round-has_writer j written i ((k, w) ∷ ws) =
    ground (arith, write_round-has_writer j written i ws)

write_next-is_report : (written : Bool) (w : Writer) → all is_report (write_next written w).1 ≡ true
unfolding write_next
write_next-is_report written w = ground arith

pub write_round-is_report :
    (written : Bool) (i : ℕ) (ws : List (ℕ × Writer))
    → all is_report (write_round written i ws).1 ≡ true
unfolding write_round
write_round-is_report written i [] = refl
write_round-is_report written i ((k, w) ∷ ws) =
    ground (arith, write_next-is_report written w, write_round-is_report written i ws)
