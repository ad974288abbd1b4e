-- ===== src/Io/Connections.antt =====
-- The socket tasks of src/io.rs and what they share: `read_udp`, `accept_tcp`, `handle_tcp_stream`, and
-- the sends of `run_io`. The tasks and the thread that drains the queue take turns: a step is what one
-- of them does between two waits or, in the loop over messages, for one message.
pub mod Closing
pub mod Table
pub mod Pushes
pub mod Kept
pub mod Reached
pub mod Sends
use gmv_pjsip.Prelude.{
  ℕ, suc, ◌%◌, ◌≤◌, ◌<◌, ◌≡◌, Bool, true, false, List, [], ◌∷◌, ◌++◌, Option, none, some, ◌==◌,
  if◌then◌else◌, is_empty, length,
}
use gmv_pjsip.Prelude.Int.{pos}
use gmv_pjsip.Transport.{SocketAddr, udp, tcp}
use gmv_pjsip.Runtime.Types.{SipTransmit}
use gmv_pjsip.Runtime.State.{SendResult, RuntimeIoCommand, receive, transport_closed}
use gmv_pjsip.Io.Framing.{Bytes, usize_mod, next_sip_message}
use gmv_pjsip.Io.Transmit.{Writer, Tasks, push_command, write_transmit, write_next}

-- What the task of a TCP stream keeps while it reads.
pub record Connection : Type 0 where
  pub local_addr : SocketAddr
  pub remote_addr : SocketAddr
  pub buffer : Bytes

-- The task of a stream: spawned and not begun, with the address of the peer, or reading.
pub data StreamTask : Type 0 where
  spawned : SocketAddr → StreamTask
  reading : Connection → StreamTask

-- The table of the writers and the queue, the counter of associations, and the tasks of the streams.
-- `detached` are the writers that are out of the table and still have requests to write; `taken` are
-- the commands that the runtime has taken off the queue, oldest first.
pub record Sockets : Type 0 where
  pub tasks : Tasks
  pub next_association_id : ℕ
  pub connections : ℕ → Option StreamTask
  pub detached : List (ℕ × Writer)
  pub taken : List RuntimeIoCommand

-- Everything that was ever queued, oldest first.
abbrev pub queued : Sockets → List RuntimeIoCommand
queued s = s.taken ++ s.tasks.commands

abbrev set_connection : (ℕ → Option StreamTask) → ℕ → Option StreamTask → ℕ → Option StreamTask
set_connection connections i c j = if j == i then c else connections j

-- `writers.remove`: the table without the association, and the writer that was in it.
unfoldable pub detach : ℕ → List (ℕ × Writer) → List (ℕ × Writer) × List (ℕ × Writer)
detach i [] = ([], [])
detach i ((k, w) ∷ ws) =
    let (kept, gone) = detach i ws in
    if k == i then (kept, (k, w) ∷ gone) else ((k, w) ∷ kept, gone)

-- `mpsc::channel(128)` and `writers.insert`, which replaces a writer of the same association.
unfoldable pub insert_writer : ℕ → Sockets → Sockets
unfolding detach
insert_writer i s =
    let (kept, gone) = detach i s.tasks.writers in
    record s {
      tasks = record s.tasks { writers = (i, record { pending = []; receiving = true }) ∷ kept };
      detached = gone ++ s.detached;
    }

-- A datagram that `read_udp` got: an empty one is passed over.
unfoldable pub udp_received : SocketAddr → SocketAddr → Bytes → Sockets → Sockets
unfolding push_command
udp_received local_addr remote_addr payload s =
    if is_empty payload
    then s
    else record s { tasks = push_command (receive 0 udp local_addr remote_addr payload) s.tasks }

-- `accept_tcp` counts the association, and spawns the task of the stream.
unfoldable pub tcp_accepted : SocketAddr → Sockets → Sockets
tcp_accepted remote_addr s =
    let i = s.next_association_id in
    record s {
      next_association_id = suc i % usize_mod;
      connections = set_connection s.connections i (some (spawned remote_addr));
    }

-- `handle_tcp_stream` begins; it gives up at once where the stream has no local address.
unfoldable pub stream_begun : ℕ → Option SocketAddr → SocketAddr → Sockets → Sockets
unfolding insert_writer
stream_begun i none remote_addr s = record s { connections = set_connection s.connections i none }
stream_begun i (some local_addr) remote_addr s = record (insert_writer i s) {
  connections =
      set_connection s.connections i (
        some
          (reading (record { local_addr = local_addr; remote_addr = remote_addr; buffer = [] })));
}

-- A chunk that arrived is appended to the buffer.
unfoldable pub chunk_read : ℕ → Connection → Bytes → Sockets → Sockets
chunk_read i c chunk s = record s {
  connections =
      set_connection s.connections i (some (reading (record c { buffer = c.buffer ++ chunk })));
}

-- A message that was taken off the buffer is queued.
unfoldable pub message_read : ℕ → Connection → Bytes → Bytes → Sockets → Sockets
unfolding push_command
message_read i c message rest s = record s {
  tasks = push_command (receive i tcp c.local_addr c.remote_addr message) s.tasks;
  connections = set_connection s.connections i (some (reading (record c { buffer = rest })));
}

-- The end of the stream, or an error of it.
unfoldable pub connection_ended : ℕ → Connection → Sockets → Sockets
unfolding push_command detach
connection_ended i c s =
    let (kept, gone) = detach i s.tasks.writers in
    record s {
      tasks =
          push_command (transport_closed i tcp c.local_addr c.remote_addr (pos 1))
            (record s.tasks { writers = kept });
      connections = set_connection s.connections i none;
      detached = gone ++ s.detached;
    }

-- `transmits.recv()` in the loop of `run_io`.
unfoldable pub transmit_taken : SendResult → SipTransmit → Sockets → Sockets
unfolding write_transmit
transmit_taken answer t s = record s { tasks = write_transmit answer t s.tasks }

-- One round of the writer task of an association: the writers, and what it reports.
unfoldable pub write_round :
    Bool → ℕ → List (ℕ × Writer) → List (ℕ × Writer) × List RuntimeIoCommand
unfolding write_next
write_round written i [] = ([], [])
write_round written i ((k, w) ∷ ws) =
    let (w', reports) = write_next written w in
    let (ws', later) = write_round written i ws in
    if k == i then ((k, w') ∷ ws, reports) else ((k, w) ∷ ws', later)

abbrev pub push_all : List RuntimeIoCommand → Tasks → Tasks
push_all [] t = t
push_all (c ∷ cs) t = push_all cs (push_command c t)

unfoldable pub attached_write : Bool → ℕ → Sockets → Sockets
unfolding write_round
attached_write written i s =
    let (ws, reports) = write_round written i s.tasks.writers in
    record s { tasks = push_all reports (record s.tasks { writers = ws }) }

unfoldable pub detached_write : Bool → ℕ → Sockets → Sockets
unfolding write_round
detached_write written i s =
    let (ws, reports) = write_round written i s.detached in
    record s { tasks = push_all reports s.tasks; detached = ws }

-- The size of the array that a stream is read into.
abbrev chunk_size : ℕ
chunk_size = 4096

-- Every step but that of `accept_tcp`. A reader waits for the next chunk only when no whole message is left in its buffer.
pub data Step (s : Sockets) : Sockets → Type 0 where
  datagram :
      (local_addr remote_addr : SocketAddr) (payload : Bytes)
      → Step s (udp_received local_addr remote_addr payload s)
  begin_stream :
      (i : ℕ) (local : Option SocketAddr) (remote_addr : SocketAddr)
      → s.connections i ≡ some (spawned remote_addr)
      → Step s (stream_begun i local remote_addr s)
  chunk :
      (i : ℕ) (c : Connection) (bytes : Bytes)
      → s.connections i ≡ some (reading c)
      → next_sip_message c.buffer ≡ none
      → 0 < length bytes
      → length bytes ≤ chunk_size
      → Step s (chunk_read i c bytes s)
  message :
      (i : ℕ) (c : Connection) (m rest : Bytes)
      → s.connections i ≡ some (reading c)
      → next_sip_message c.buffer ≡ some (m, rest)
      → Step s (message_read i c m rest s)
  end_of_stream :
      (i : ℕ) (c : Connection)
      → s.connections i ≡ some (reading c)
      → next_sip_message c.buffer ≡ none
      → Step s (connection_ended i c s)
  transmit : (answer : SendResult) (t : SipTransmit) → Step s (transmit_taken answer t s)
  write : (written : Bool) (i : ℕ) → Step s (attached_write written i s)
  write_detached : (written : Bool) (i : ℕ) → Step s (detached_write written i s)
  -- `drain_io_commands` of the runtime's thread takes the oldest command.
  take_command :
      (c : RuntimeIoCommand) (cs : List RuntimeIoCommand)
      → s.tasks.commands ≡ c ∷ cs
      → Step s (record s { tasks = record s.tasks { commands = cs }; taken = s.taken ++ (c ∷ []) })

-- The shared state that `run_io` begins with, at a queue of the given capacity.
abbrev pub started : ℕ → Sockets
started capacity = record {
  tasks = record { writers = []; commands = []; capacity = capacity };
  next_association_id = 1;
  connections = λ _. none;
  detached = [];
  taken = [];
}

-- The number counts the steps of `accept_tcp`.
pub data Reach (capacity : ℕ) : ℕ → Sockets → Type 0 where
  start : Reach capacity 0 (started capacity)
  accepting :
      {n : ℕ} {s : Sockets} (remote_addr : SocketAddr)
      → Reach capacity n s
      → Reach capacity (suc n) (tcp_accepted remote_addr s)
  step : {n : ℕ} {s t : Sockets} → Reach capacity n s → Step s t → Reach capacity n t
