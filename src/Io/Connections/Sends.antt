-- ===== src/Io/Connections/Sends.antt =====
-- The sends of src/io.rs in a step of the socket tasks: those taken on, reported and waiting.
pub mod Kept
use gmv_pjsip.Prelude.{
  ℕ, ◌+◌, ◌≤◌, ◌≡◌, refl, ap, Bool, true, false, List, [], ◌∷◌, ◌++◌, Option, none, some, arith,
  ◌==◌, if◌then◌else◌, is_empty, length, drop, Option-cases, Bool-cases, inl, inr,
}
use gmv_pjsip.Prelude.Int.{pos}
use gmv_pjsip.Transport.{SipTransportProtocol, SocketAddr, udp, tcp, tls}
use gmv_pjsip.Runtime.Types.{SipTransmit}
use gmv_pjsip.Runtime.State.{
  SendResult, failed, RuntimeIoCommand, receive, send_done, transport_closed,
}
use gmv_pjsip.Io.Framing.{usize_mod}
use gmv_pjsip.Io.Transmit.{
  Writer, Tasks, push_command, queue_at, write_reliable, write_transmit, write_next,
}
use gmv_pjsip.Io.Transmit.Completions.{
  one_if, waiting, owed, reported, queue_at-owed, write_next-reported,
}
use gmv_pjsip.Io.Connections.{
  Connection, Sockets, queued, detach, insert_writer, udp_received, tcp_accepted, stream_begun,
  begin_stream, chunk_read, message_read, connection_ended, transmit_taken, write_round, push_all,
  attached_write, detached_write, Step, datagram, chunk, message, end_of_stream, transmit, write,
  write_detached, take_command, started, Reach, start, accepting, step,
}

-- The sends that a step takes from the channel of `run_io`.
abbrev pub taken_in : {s t : Sockets} → Step s t → List SipTransmit
taken_in (transmit answer t) = t ∷ []
taken_in (datagram l r p) = []
taken_in (begin_stream i local remote_addr e) = []
taken_in (chunk i c b e f g h) = []
taken_in (message i c m rest e f) = []
taken_in (end_of_stream i c e f) = []
taken_in (write w i) = []
taken_in (write_detached w i) = []
taken_in (take_command c cs e) = []

pub reported-append_all :
    (n : ℕ) (cs ds : List RuntimeIoCommand) → reported n (cs ++ ds) ≡ reported n cs + reported n ds
reported-append_all n [] ds = omega arith
reported-append_all n (receive a p l r d ∷ cs) ds = reported-append_all n cs ds
reported-append_all n (send_done m r ∷ cs) ds = omega (arith, reported-append_all n cs ds)
reported-append_all n (transport_closed a p l r s ∷ cs) ds = reported-append_all n cs ds

-- What the queue and the channels hold of a send.
abbrev pub load : ℕ → Tasks → ℕ
load n t = reported n t.commands + owed n t.writers

push_command-load :
    (n : ℕ) (c : RuntimeIoCommand) (t : Tasks)
    → load n (push_command c t) ≤ load n t + reported n (c ∷ [])
unfolding push_command
push_command-load n c t = ground (arith, reported-append_all n t.commands (c ∷ []))

pub push_command-known :
    (n : ℕ) (c : RuntimeIoCommand) (t : Tasks)
    → reported n (c ∷ []) ≡ 0
    → load n (push_command c t) ≡ load n t
unfolding push_command
push_command-known n c t z = ground (arith, reported-append_all n t.commands (c ∷ []))

push_all-load :
    (n : ℕ) (cs : List RuntimeIoCommand) (t : Tasks)
    → load n (push_all cs t) ≤ load n t + reported n cs
push_all-load n [] t = omega arith
push_all-load n (c ∷ cs) t = omega (
  arith,
  push_command-load n c t,
  push_all-load n cs (push_command c t),
  reported-append_all n (c ∷ []) cs,
)

write_reliable-load :
    (n : ℕ) (t : SipTransmit) (tasks : Tasks)
    → load n (write_reliable t tasks) ≤ load n tasks + one_if (t.send_id == n)
unfolding write_reliable
write_reliable-load n t tasks = elim (Option-cases (queue_at t.association_id t tasks.writers)) [
  | inl e ↦
      rw (e, write_reliable)
        (omega (arith, push_command-load n (send_done t.send_id (failed (pos 1))) tasks))
  | inr (ws, e) ↦
      rw (e, write_reliable) (omega (arith, queue_at-owed n t.association_id t tasks.writers ws e))
]

write_transmit-load :
    (n : ℕ) (answer : SendResult) (t : SipTransmit) (tasks : Tasks)
    → load n (write_transmit answer t tasks) ≤ load n tasks + one_if (t.send_id == n)
unfolding write_transmit
write_transmit-load n answer t tasks = by_protocol t.protocol refl
  where
    by_protocol :
        (p : SipTransportProtocol)
        → t.protocol ≡ p
        → load n (write_transmit answer t tasks) ≤ load n tasks + one_if (t.send_id == n)
    by_protocol udp e =
        rw (e, write_transmit)
          (omega (arith, push_command-load n (send_done t.send_id answer) tasks))
    by_protocol tcp e = rw (e, write_transmit) (write_reliable-load n t tasks)
    by_protocol tls e = rw (e, write_transmit) (write_reliable-load n t tasks)

pub detach-owed :
    (n i : ℕ) (ws : List (ℕ × Writer)) → owed n (detach i ws).0 + owed n (detach i ws).1 ≡ owed n ws
unfolding detach
detach-owed n i [] = refl
detach-owed n i ((k, w) ∷ ws) = ground (arith, detach-owed n i ws)

pub owed-append : (n : ℕ) (ws vs : List (ℕ × Writer)) → owed n (ws ++ vs) ≡ owed n ws + owed n vs
owed-append n [] vs = omega arith
owed-append n ((k, w) ∷ ws) vs = omega (arith, owed-append n ws vs)

write_round-owed :
    (n : ℕ) (written : Bool) (i : ℕ) (ws : List (ℕ × Writer))
    → reported n (write_round written i ws).1 + owed n (write_round written i ws).0 ≤ owed n ws
unfolding write_round
write_round-owed n written i [] = omega arith
write_round-owed n written i ((k, w) ∷ ws) =
    ground (arith, write_round-owed n written i ws, write_next-reported n written w)

-- What was ever queued, and what waits at a writer in the table or out of it.
abbrev pub known : ℕ → Sockets → ℕ
known n s = reported n s.taken + load n s.tasks + owed n s.detached

pub tcp_accepted-known :
    (n : ℕ) (remote_addr : SocketAddr) (s : Sockets)
    → known n (tcp_accepted remote_addr s) ≡ known n s
unfolding tcp_accepted
tcp_accepted-known n remote_addr s = refl

pub stream_begun-known :
    (n i : ℕ) (local : Option SocketAddr) (remote_addr : SocketAddr) (s : Sockets)
    → known n (stream_begun i local remote_addr s) ≡ known n s
unfolding stream_begun insert_writer
stream_begun-known n i none remote_addr s = refl
stream_begun-known n i (some l) remote_addr s =
    omega (
      arith,
      detach-owed n i s.tasks.writers,
      owed-append n (detach i s.tasks.writers).1 s.detached,
    )

pub connection_ended-known :
    (n i : ℕ) (c : Connection) (s : Sockets) → known n (connection_ended i c s) ≡ known n s
unfolding connection_ended
connection_ended-known n i c s =
    let kept = record s.tasks { writers = (detach i s.tasks.writers).0 } in
    omega (
      arith,
      push_command-known n (transport_closed i tcp c.local_addr c.remote_addr (pos 1)) kept refl,
      detach-owed n i s.tasks.writers,
      owed-append n (detach i s.tasks.writers).1 s.detached,
    )

pub Step-known :
    {s t : Sockets} (n : ℕ) (st : Step s t) → known n t ≤ known n s + waiting n (taken_in st)
unfolding udp_received chunk_read message_read transmit_taken attached_write detached_write
Step-known {s = s} n (datagram l r p) =
    ground (arith, push_command-load n (receive 0 udp l r p) s.tasks)
Step-known {s = s} n (begin_stream i local remote_addr e) =
    omega (arith, stream_begun-known n i local remote_addr s)
Step-known n (chunk i c b e f g h) = omega arith
Step-known {s = s} n (message i c m rest e f) =
    omega (arith, push_command-load n (receive i tcp c.local_addr c.remote_addr m) s.tasks)
Step-known {s = s} n (end_of_stream i c e f) = omega (arith, connection_ended-known n i c s)
Step-known {s = s} n (transmit answer t) = omega (arith, write_transmit-load n answer t s.tasks)
Step-known {s = s} n (write w i) =
    let (ws, reports) = write_round w i s.tasks.writers in
    omega (
      arith,
      push_all-load n reports (record s.tasks { writers = ws }),
      write_round-owed n w i s.tasks.writers,
    )
Step-known {s = s} n (write_detached w i) =
    let (ws, reports) = write_round w i s.detached in
    omega (arith, push_all-load n reports s.tasks, write_round-owed n w i s.detached)
Step-known {s = s} n (take_command c cs e) = omega (
  arith,
  reported-append_all n s.taken (c ∷ []),
  reported-append_all n (c ∷ []) cs,
  ap (reported n) e,
)
