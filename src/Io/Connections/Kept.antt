-- ===== src/Io/Connections/Kept.antt =====
-- What every run of the socket tasks of src/io.rs keeps, as long as their counter does not wrap round.
use gmv_pjsip.Prelude.{
  ℕ, suc, ◌%◌, ◌<◌, ◌≡◌, refl, Bool, true, false, List, [], ◌∷◌, ◌++◌, Option, none, some, arith,
  ◌==◌, Bool-cases, Option-cases, inl, inr,
}
use gmv_pjsip.Prelude.Int.{pos}
use gmv_pjsip.Transport.{SocketAddr, udp, tcp}
use gmv_pjsip.Runtime.Types.{SipTransmit}
use gmv_pjsip.Runtime.State.{SendResult, RuntimeIoCommand, receive, transport_closed}
use gmv_pjsip.Io.Framing.{Bytes, usize_mod}
use gmv_pjsip.Io.Transmit.{write_transmit}
use gmv_pjsip.Io.Connections.{
  Connection, StreamTask, spawned, reading, stream_begun, Sockets, queued, set_connection, detach,
  insert_writer, udp_received, tcp_accepted, chunk_read, message_read, connection_ended,
  transmit_taken, write_round, attached_write, detached_write,
}
use gmv_pjsip.Io.Connections.Closing.{
  History, History-snoc, History-live, live-closes, udp-closes, push-queued,
}
use gmv_pjsip.Io.Connections.Pushes.{History-push, Reports-push, reports-push_all}
use gmv_pjsip.Io.Connections.Table.{
  has_writer, has_writer-detach, push_command-writers, push_all-writers, write_transmit-Reports,
  write_transmit-has_writer, write_round-has_writer, write_round-is_report,
}

abbrev pub is_open : Option StreamTask → Bool
is_open none = false
is_open (some (spawned remote_addr)) = false
is_open (some (reading c)) = true

-- A writer is in the table just while its association is read.
pub record Kept (s : Sockets) : Type 0 where
  pub history : History s.next_association_id s.connections (queued s)
  pub table : (i : ℕ) → has_writer i s.tasks.writers ≡ is_open (s.connections i)

pub udp_received-Kept :
    (l r : SocketAddr) (d : Bytes) (s : Sockets) → Kept s → Kept (udp_received l r d s)
unfolding udp_received
udp_received-Kept l r [] s k = k
udp_received-Kept l r (x ∷ d) s k = record {
  history =
      History-push s.taken (receive 0 udp l r (x ∷ d)) s.tasks k.history refl (λ j. refl)
        (λ j e. let z : 0 ≡ j = ground arith in rw (← z) (udp-closes k.history));
  table = λ i. rw (push_command-writers _ s.tasks) (k.table i);
}

set_open :
    {s : Sockets} (i : ℕ) (c d : StreamTask)
    → Kept s
    → s.connections i ≡ some c
    → History s.next_association_id (set_connection s.connections i (some d)) (queued s)
set_open {s} i c d k e =
    History-live _ k.history
      (λ j f q. elim (Bool-cases (j == i)) [
        | inl y ↦ let z : j ≡ i = ground arith in rw z (k.history.open_below i c e)
        | inr m ↦ k.history.open_below j f (rw m at q)
      ])
      (λ j n. elim (Bool-cases (j == i)) [
        | inl y ↦ let z : j ≡ i = ground arith in absurd (ground (arith, e, rw z at n))
        | inr m ↦ rw m n
      ])

set_open_table :
    {s : Sockets} (i : ℕ) (c d : Connection)
    → Kept s
    → s.connections i ≡ some (reading c)
    → (j : ℕ)
    → has_writer j s.tasks.writers ≡ is_open (set_connection s.connections i (some (reading d)) j)
set_open_table {s} i c d k e j = elim (Bool-cases (j == i)) [
  | inl y ↦ let z : j ≡ i = ground arith in ground (arith, k.table j, z, e)
  | inr n ↦ rw n (k.table j)
]

pub message_read-Kept :
    (i : ℕ) (c : Connection) (m rest : Bytes) (s : Sockets)
    → s.connections i ≡ some (reading c)
    → Kept s
    → Kept (message_read i c m rest s)
unfolding message_read
message_read-Kept i c m rest s e k = record {
  history =
      let (p, q) = k.history.open_below i (reading c) e in
      let moved = set_open i (reading c) (reading (record c { buffer = rest })) k e in
      History-push s.taken (receive i tcp c.local_addr c.remote_addr m) s.tasks moved (grind arith)
        (λ j. refl)
        (λ j y. let z : i ≡ j = ground arith in rw (← z) (live-closes i (reading c) k.history e));
  table = λ j.
      rw (push_command-writers _ s.tasks) (set_open_table i c (record c { buffer = rest }) k e j);
}

pub chunk_read-Kept :
    (i : ℕ) (c : Connection) (bytes : Bytes) (s : Sockets)
    → s.connections i ≡ some (reading c)
    → Kept s
    → Kept (chunk_read i c bytes s)
unfolding chunk_read
chunk_read-Kept i c bytes s e k = record {
  history = set_open i (reading c) (reading (record c { buffer = c.buffer ++ bytes })) k e;
  table = set_open_table i c (record c { buffer = c.buffer ++ bytes }) k e;
}

abbrev closing : ℕ → Connection → RuntimeIoCommand
closing i c = transport_closed i tcp c.local_addr c.remote_addr (pos 1)

-- The stream that ends is closed in the history and gone from the table.
pub connection_ended-Kept :
    (i : ℕ) (c : Connection) (s : Sockets)
    → s.connections i ≡ some (reading c)
    → Kept s
    → Kept (connection_ended i c s)
unfolding connection_ended
connection_ended-Kept i c s e k = record {
  history =
      let (p, q) = k.history.open_below i (reading c) e in
      push-queued (History s.next_association_id (set_connection s.connections i none)) s.taken
        (closing i c) (record s.tasks { writers = (detach i s.tasks.writers).0 })
        (History-live _ k.history open' gone)
        (History-snoc _ (closing i c) k.history open' gone (grind arith)
          (λ j y. let z : i ≡ j = ground arith in rw (← z) (live-closes i (reading c) k.history e))
          (λ j y. let z : i ≡ j = ground arith in rw (← z) (p, q, ground arith)));
  table = λ j.
      rw
        (push_command-writers (closing i c)
          (record s.tasks { writers = (detach i s.tasks.writers).0 }))
        (rw (has_writer-detach j i s.tasks.writers) (ground (arith, k.table j)));
}
  where
    open' :
        (j : ℕ) (d : StreamTask)
        → set_connection s.connections i none j ≡ some d
        → (0 < j) × (j < s.next_association_id)
    open' j d y = k.history.open_below j d (ground arith)

    gone : (j : ℕ) → s.connections j ≡ none → set_connection s.connections i none j ≡ none
    gone j n = ground arith

pub transmit_taken-Kept :
    (answer : SendResult) (t : SipTransmit) (s : Sockets)
    → Kept s
    → Kept (transmit_taken answer t s)
unfolding transmit_taken
transmit_taken-Kept answer t s k = record {
  history =
      Reports-push s.taken s.tasks (write_transmit answer t s.tasks)
        (write_transmit-Reports answer t s.tasks) k.history;
  table = λ i. rw (write_transmit-has_writer i answer t s.tasks) (k.table i);
}

pub attached_write-Kept :
    (written : Bool) (i : ℕ) (s : Sockets) → Kept s → Kept (attached_write written i s)
unfolding attached_write
attached_write-Kept written i s k = record {
  history =
      reports-push_all s.taken (write_round written i s.tasks.writers).1
        (record s.tasks { writers = (write_round written i s.tasks.writers).0 })
        (write_round-is_report written i s.tasks.writers) k.history;
  table = λ j.
      rw
        (push_all-writers (write_round written i s.tasks.writers).1
          (record s.tasks { writers = (write_round written i s.tasks.writers).0 }))
        (rw (write_round-has_writer j written i s.tasks.writers) (k.table j));
}

pub detached_write-Kept :
    (written : Bool) (i : ℕ) (s : Sockets) → Kept s → Kept (detached_write written i s)
unfolding detached_write
detached_write-Kept written i s k = record {
  history =
      reports-push_all s.taken (write_round written i s.detached).1 s.tasks
        (write_round-is_report written i s.detached) k.history;
  table = λ j. rw (push_all-writers (write_round written i s.detached).1 s.tasks) (k.table j);
}

-- A new association is in no use yet.
counted-History :
    {counter : ℕ} {live : ℕ → Option StreamTask} {log : List RuntimeIoCommand} (counter' : ℕ)
    (live' : ℕ → Option StreamTask)
    → History counter live log
    → counter < counter'
    → ((j : ℕ) (d : StreamTask) → live' j ≡ some d → (0 < j) × (j < counter'))
    → ((j : ℕ) → j < counter → live j ≡ none → live' j ≡ none)
    → History counter' live' log
counted-History counter' live' h more open' gone = record {
  open_below = open';
  ended = λ j e.
      let (p, q, n) = h.ended j e in
      let below : j < counter' = omega arith in (p, below, gone j q n);
  order = h.order;
  all_sound = h.all_sound;
}

-- The next association has no task.
next-unused : {s : Sockets} → Kept s → s.connections s.next_association_id ≡ none
next-unused {s} k = elim (Option-cases (s.connections s.next_association_id)) [
  | inl n ↦ n
  | inr (t, e) ↦ let (p, q) = k.history.open_below s.next_association_id t e in absurd (omega arith)
]

pub tcp_accepted-Kept :
    (remote_addr : SocketAddr) (s : Sockets)
    → 0 < s.next_association_id
    → suc s.next_association_id < usize_mod
    → Kept s
    → Kept (tcp_accepted remote_addr s)
unfolding tcp_accepted
tcp_accepted-Kept remote_addr s positive small k = record {
  history =
      counted-History (suc s.next_association_id % usize_mod) _ k.history counted
        (λ j d e. grind (arith, k.history.open_below j d)) (λ j q n. ground arith);
  table = λ j. elim (Bool-cases (j == s.next_association_id)) [
    | inl y ↦
        let z : j ≡ s.next_association_id = ground arith in
        ground (arith, k.table j, z, next-unused k)
    | inr n ↦ rw n (k.table j)
  ];
}
  where
    counted : s.next_association_id < suc s.next_association_id % usize_mod
    counted = omega arith

pub stream_begun-Kept :
    (i : ℕ) (local : Option SocketAddr) (remote_addr : SocketAddr) (s : Sockets)
    → s.connections i ≡ some (spawned remote_addr)
    → Kept s
    → Kept (stream_begun i local remote_addr s)
unfolding stream_begun insert_writer
stream_begun-Kept i none remote_addr s e k = record {
  history =
      History-live _ k.history (λ j d y. k.history.open_below j d (ground arith))
        (λ j n. ground arith);
  table = λ j. ground (arith, k.table j);
}
stream_begun-Kept i (some l) remote_addr s e k = record {
  history = set_open i (spawned remote_addr) _ k e;
  table = λ j. ground (arith, has_writer-detach j i s.tasks.writers, k.table j);
}
