-- ===== src/Tests/Connections.antt =====
-- One connection of src/io.rs from its acceptance to its end.
use mathlib.Core.List.{Mem, mem-cons}
use mathlib.Core.Logic.Or
use gmv_pjsip.Prelude.{ℕ, ◌≤◌, ◌≡◌, refl, false, List, [], ◌∷◌, none, some, arith}
use gmv_pjsip.Prelude.Int.{pos}
use gmv_pjsip.Text.{codes, find, from_utf8, lines, split_once}
use gmv_pjsip.Transport.{SocketAddr, v4, tcp}
use gmv_pjsip.Runtime.State.{SipRuntime, RuntimeIoCommand, receive, transport_closed}
use gmv_pjsip.Io.Framing.{next_sip_message, message_len, body_length, content_length}
use gmv_pjsip.Runtime.Ffi.{Shim, ShimCall}
use gmv_pjsip.Io.Connections.{
  Connection, Sockets, spawned, reading, queued, tcp_accepted, stream_begun, begin_stream,
  chunk_read, message_read, connection_ended, started, Reach, start, accepting, step, chunk,
  message, end_of_stream,
}
use gmv_pjsip.Io.Connections.Closing.{Ordered}
use gmv_pjsip.Io.Connections.Table.{has_writer}
use gmv_pjsip.Io.Connections.Kept.{is_open}
use gmv_pjsip.Io.Connections.Reached.{Handed, queued-Handed, queued-Ordered, has_writer-is_open}
use gmv_pjsip.Runtime.Lifecycle.{handle_command}
use gmv_pjsip.System.{handed_over, Run, begin, accept, sockets, drain}
use gmv_pjsip.System.Closed.{events_of, endings, Run-once}

abbrev server : SocketAddr
server = v4 10 0 0 1 5060

abbrev peer : SocketAddr
peer = v4 10 0 0 7 40000

abbrev request : List ℕ
request = codes "BYE\r\n\r\n"

abbrev fresh : Connection
fresh = record { local_addr = server; remote_addr = peer; buffer = [] }

abbrev filled : Connection
filled = record { local_addr = server; remote_addr = peer; buffer = request }

abbrev waiting : Sockets
waiting = tcp_accepted peer (started 16)

abbrev accepted : Sockets
accepted = stream_begun 1 (some server) peer waiting

abbrev read : Sockets
read = chunk_read 1 fresh request accepted

abbrev framed : Sockets
framed = message_read 1 filled request [] read

abbrev ended : Sockets
ended = connection_ended 1 fresh framed

empty_waits : next_sip_message [] ≡ none
unfolding next_sip_message find
empty_waits = refl

request_framed : next_sip_message request ≡ some (request, [])
unfolding next_sip_message find message_len body_length content_length from_utf8 lines split_once
request_framed = refl

waiting_spawned : waiting.connections 1 ≡ some (spawned peer)
unfolding tcp_accepted
waiting_spawned = refl

accepted_fresh : accepted.connections 1 ≡ some (reading fresh)
unfolding tcp_accepted stream_begun
accepted_fresh = refl

read_filled : read.connections 1 ≡ some (reading filled)
unfolding chunk_read
read_filled = refl

framed_fresh : framed.connections 1 ≡ some (reading fresh)
unfolding message_read
framed_fresh = refl

abbrev ended_reached : Reach 16 1 ended
ended_reached =
    step
      (step
        (step (step (accepting peer start) (begin_stream 1 (some server) peer waiting_spawned))
          (chunk 1 fresh request accepted_fresh empty_waits (omega arith) (omega arith)))
        (message 1 filled request [] read_filled request_framed))
      (end_of_stream 1 fresh framed_fresh empty_waits)

queued_ended :
    queued ended
    ≡ receive 1 tcp server peer request ∷ transport_closed 1 tcp server peer (pos 1) ∷ []
unfolding tcp_accepted stream_begun chunk_read message_read connection_ended
queued_ended = refl

queued-Ordered_example : Ordered (queued ended)
queued-Ordered_example = queued-Ordered ended_reached (omega arith)

has_writer-is_open_example : has_writer 1 ended.tasks.writers ≡ is_open (ended.connections 1)
has_writer-is_open_example = has_writer-is_open ended_reached (omega arith) 1

abbrev silent : Shim
silent = record {
  State = List ShimCall;
  invoke = λ call calls. (pos 0, call ∷ calls);
  algorithm_id = λ _. pos 0;
  credential_id = λ _. pos 0;
}

abbrev active : SipRuntime silent
active = record { raw = []; stopped = false; events = []; io_commands = []; sip_cseq = 0 }

abbrev last_command : RuntimeIoCommand
last_command = transport_closed 1 tcp server peer (pos 1)

last_queued : Mem last_command (queued ended)
last_queued = rw queued_ended (mem-cons.1 (Or.inr (mem-cons.1 (Or.inl refl))))

queued-Handed_example : Handed active last_command
queued-Handed_example =
    queued-Handed ended_reached (omega arith) active last_command refl last_queued

abbrev first_command : RuntimeIoCommand
first_command = receive 1 tcp server peer request

abbrev one_taken : Sockets
one_taken = handed_over ended first_command (last_command ∷ [])

abbrev both_taken : Sockets
both_taken = handed_over one_taken last_command []

abbrev told : SipRuntime silent
told = handle_command (handle_command active first_command) last_command

connection_run : Run silent 16 1 ended active
unfolding tcp_accepted stream_begun chunk_read message_read connection_ended
connection_run = sockets (end_of_stream 1 fresh framed_fresh empty_waits) refl (
    sockets (message 1 filled request [] read_filled request_framed) refl (
      sockets (chunk 1 fresh request accepted_fresh empty_waits (omega arith) (omega arith)) refl (
        sockets (begin_stream 1 (some server) peer waiting_spawned) refl
          (accept peer (begin active refl)))))

told_run : Run silent 16 1 both_taken told
unfolding tcp_accepted stream_begun chunk_read message_read connection_ended
told_run = drain last_command [] refl (drain first_command (last_command ∷ []) refl connection_run)

Run-once_example :
    (events_of 1 told.events ≤ 1) × (events_of 1 told.events ≡ endings 1 both_taken.taken)
Run-once_example = Run-once 1 told_run (omega arith)
