-- ===== src/Io/Transmit.antt =====
-- `write_transmit` of src/io.rs, and the writer task that `handle_tcp_stream` spawns for each
-- association. What the sockets answer is an argument.
pub mod Completions
pub mod Delivery
use gmv_pjsip.Prelude.{
  ℕ, Bool, true, false, ◌&&◌, List, [], ◌∷◌, ◌++◌, Option, none, some, ltb, ◌==◌, if◌then◌else◌,
  length,
}
use gmv_pjsip.Prelude.Int.{pos}
use gmv_pjsip.Transport.{SipTransportProtocol, udp, tcp, tls}
use gmv_pjsip.Runtime.Types.{SipTransmit}
use gmv_pjsip.Runtime.State.{SendResult, sent, failed, RuntimeIoCommand, send_done}

-- The channel to a writer task: what waits in it, and whether the task still receives.
pub record Writer : Type 0 where
  pub pending : List SipTransmit
  pub receiving : Bool

-- The table of the writers, and the queue of commands with its capacity, oldest first.
pub record Tasks : Type 0 where
  pub writers : List (ℕ × Writer)
  pub commands : List RuntimeIoCommand
  pub capacity : ℕ

abbrev pub writer_capacity : ℕ
writer_capacity = 128

-- `let _ = commands.try_send(command)`: a full queue drops the command.
unfoldable pub push_command : RuntimeIoCommand → Tasks → Tasks
push_command c t =
    if ltb (length t.commands) t.capacity then record t { commands = t.commands ++ (c ∷ []) } else t

-- `writer.try_send(request)`
unfoldable pub try_queue : SipTransmit → Writer → Option Writer
try_queue t w =
    if w.receiving && ltb (length w.pending) writer_capacity
    then some (record w { pending = w.pending ++ (t ∷ []) })
    else none

-- The table with the request queued at the writer of the association; `none` where there is no writer,
-- or its channel is closed or full.
unfoldable pub queue_at : ℕ → SipTransmit → List (ℕ × Writer) → Option (List (ℕ × Writer))
unfolding try_queue
queue_at id t [] = none
queue_at id t ((k, w) ∷ ws) =
    let later = queue_at id t ws in
    if k == id
    then elim (try_queue t w) [ none ↦ none | some w' ↦ some ((k, w') ∷ ws) ]
    else elim later [ none ↦ none | some ws' ↦ some ((k, w) ∷ ws') ]

-- The branch for TCP and TLS.
unfoldable pub write_reliable : SipTransmit → Tasks → Tasks
unfolding queue_at push_command
write_reliable t tasks = elim (queue_at t.association_id t tasks.writers) [
  | none ↦ push_command (send_done t.send_id (failed (pos 1))) tasks
  | some writers ↦ record tasks { writers = writers }
]

-- `answer` is what `send_to` comes to, a failure where there is no UDP socket.
unfoldable pub write_transmit : SendResult → SipTransmit → Tasks → Tasks
unfolding write_reliable push_command
write_transmit answer t tasks = elim t.protocol [
  | udp ↦ push_command (send_done t.send_id answer) tasks
  | tcp ↦ write_reliable t tasks
  | tls ↦ write_reliable t tasks
]

-- One round of the writer task: the writer, and the completion it reports. A failed write ends the
-- task, and what waits in its channel is gone.
unfoldable pub write_next : Bool → Writer → Writer × List RuntimeIoCommand
write_next written w = elim w.pending [
  | [] ↦ (w, [])
  | t ∷ ts ↦
      if written
      then (record w { pending = ts }, send_done t.send_id (sent (length t.payload)) ∷ [])
      else (record { pending = []; receiving = false }, send_done t.send_id (failed (pos 1)) ∷ [])
]
