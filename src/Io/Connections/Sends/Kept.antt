-- ===== src/Io/Connections/Sends/Kept.antt =====
-- The steps of the socket tasks of src/io.rs at a queue with room, and writes that succeed.
use gmv_pjsip.Prelude.{ℕ, ◌+◌, ◌≤◌, ◌<◌, ◌≡◌, refl, ap, Bool, true, List, [], ◌∷◌, arith, length}
use gmv_pjsip.Transport.{udp, tcp}
use gmv_pjsip.Runtime.State.{RuntimeIoCommand, receive}
use gmv_pjsip.Io.Transmit.{Writer, Tasks, push_command, write_next}
use gmv_pjsip.Io.Transmit.Completions.{
  waiting, owed, reported, write_next-reported, write_transmit-reported,
}
use gmv_pjsip.Io.Connections.{
  Sockets, udp_received, chunk_read, message_read, transmit_taken, write_round, push_all,
  attached_write, detached_write, Step, datagram, begin_stream, chunk, message, end_of_stream,
  transmit, write, write_detached, take_command,
}
use gmv_pjsip.Io.Connections.Sends.{
  taken_in, reported-append_all, load, push_command-known, known, connection_ended-known,
  stream_begun-known,
}

abbrev HasRoom : Tasks → Type 0
HasRoom t = length t.commands < t.capacity

-- A step that reports a send finds room in the queue, and a write succeeds.
abbrev pub IsSmooth : {s t : Sockets} → Step s t → Type 0
IsSmooth {s = s} (transmit answer t) = HasRoom s.tasks
IsSmooth {s = s} (write w i) = (w ≡ true) × HasRoom s.tasks
IsSmooth {s = s} (write_detached w i) = (w ≡ true) × HasRoom s.tasks
IsSmooth (datagram l r p) = Unit
IsSmooth (begin_stream i local remote_addr e) = Unit
IsSmooth (chunk i c b e f g h) = Unit
IsSmooth (message i c m rest e f) = Unit
IsSmooth (end_of_stream i c e f) = Unit
IsSmooth (take_command c cs e) = Unit

push_command-load_exact :
    (n : ℕ) (c : RuntimeIoCommand) (t : Tasks)
    → HasRoom t
    → load n (push_command c t) ≡ load n t + reported n (c ∷ [])
unfolding push_command
push_command-load_exact n c t room = ground (arith, reported-append_all n t.commands (c ∷ []))

push_all-load_exact :
    (n : ℕ) (cs : List RuntimeIoCommand) (t : Tasks)
    → length cs ≤ 1
    → HasRoom t
    → load n (push_all cs t) ≡ load n t + reported n cs
push_all-load_exact n [] t one room = omega arith
push_all-load_exact n (c ∷ []) t one room = push_command-load_exact n c t room
push_all-load_exact n (c ∷ d ∷ cs) t one room = absurd (omega arith)

write_next-one : (written : Bool) (w : Writer) → length (write_next written w).1 ≤ 1
unfolding write_next
write_next-one written w = ground arith

write_round-one :
    (written : Bool) (i : ℕ) (ws : List (ℕ × Writer)) → length (write_round written i ws).1 ≤ 1
unfolding write_round
write_round-one written i [] = omega arith
write_round-one written i ((k, w) ∷ ws) =
    ground (arith, write_round-one written i ws, write_next-one written w)

write_round-all :
    (n i : ℕ) (ws : List (ℕ × Writer))
    → reported n (write_round true i ws).1 + owed n (write_round true i ws).0 ≡ owed n ws
unfolding write_round
write_round-all n i [] = omega arith
write_round-all n i ((k, w) ∷ ws) =
    ground (arith, write_round-all n i ws, write_next-reported n true w)

pub Step-keeps :
    {s t : Sockets} (n : ℕ) (st : Step s t)
    → IsSmooth st
    → known n t ≡ known n s + waiting n (taken_in st)
unfolding udp_received chunk_read message_read transmit_taken attached_write detached_write
Step-keeps {s = s} n (datagram l r p) q =
    ground (arith, push_command-known n (receive 0 udp l r p) s.tasks refl)
Step-keeps {s = s} n (begin_stream i local remote_addr e) q =
    omega (arith, stream_begun-known n i local remote_addr s)
Step-keeps n (chunk i c b e f g h) q = omega arith
Step-keeps {s = s} n (message i c m rest e f) q =
    omega (arith, push_command-known n (receive i tcp c.local_addr c.remote_addr m) s.tasks refl)
Step-keeps {s = s} n (end_of_stream i c e f) q = omega (arith, connection_ended-known n i c s)
Step-keeps {s = s} n (transmit answer t) q =
    omega (arith, write_transmit-reported n answer t s.tasks q)
Step-keeps {s = s} n (write w i) (e, room) =
    let (ws, reports) = write_round true i s.tasks.writers in
    let some_room : HasRoom (record s.tasks { writers = ws }) = room in
    rw e (
      omega (
        arith,
        push_all-load_exact n reports (record s.tasks { writers = ws })
            (write_round-one true i s.tasks.writers) some_room,
        write_round-all n i s.tasks.writers,
      ))
Step-keeps {s = s} n (write_detached w i) (e, room) =
    let (ws, reports) = write_round true i s.detached in
    rw e (
      omega (
        arith,
        push_all-load_exact n reports s.tasks (write_round-one true i s.detached) room,
        write_round-all n i s.detached,
      ))
Step-keeps {s = s} n (take_command c cs e) q = omega (
  arith,
  reported-append_all n s.taken (c ∷ []),
  reported-append_all n (c ∷ []) cs,
  ap (reported n) e,
)
