-- ===== src/Tests/Sends.antt =====
-- A send over a stream that ends while the send waits, from the callback of src/runtime.rs to the writer
-- task of src/io.rs.
use gmv_pjsip.Prelude.{◌+◌, ◌≤◌, ◌≡◌, refl, true, [], ◌∷◌, none, some, arith}
use gmv_pjsip.Prelude.Int.{pos}
use gmv_pjsip.Text.{codes, find}
use gmv_pjsip.Transport.{SocketAddr, v4, tcp}
use gmv_pjsip.Runtime.Types.{SipTransmit}
use gmv_pjsip.Runtime.State.{sent}
use gmv_pjsip.Runtime.Copies.{SendPacket}
use gmv_pjsip.Runtime.Callbacks.{TransmitState, runtime_send_callback}
use gmv_pjsip.Runtime.Callbacks.Delivery.{packet_of, runtime_send_callback-packet_of}
use gmv_pjsip.Io.Framing.{next_sip_message}
use gmv_pjsip.Io.Transmit.{write_transmit, write_reliable, queue_at, try_queue, push_command}
use gmv_pjsip.Io.Transmit.Completions.{waiting, owed, reported}
use gmv_pjsip.Io.Connections.{
  Connection, Sockets, queued, spawned, reading, begin_stream, stream_begun, insert_writer,
  tcp_accepted, connection_ended, detach, transmit_taken, detached_write, started, end_of_stream,
  write_detached,
}
use gmv_pjsip.System.Sends.{
  SendRun, begin, callback, receive, accept, sockets, AllSmooth, occurrences, SendRun-reported,
  SendRun-accounts,
}

abbrev server : SocketAddr
server = v4 10 0 0 1 5060

abbrev peer : SocketAddr
peer = v4 10 0 0 7 40000

abbrev bye : SipTransmit
bye = record {
  send_id = 5;
  transport_id = 1;
  association_id = 1;
  protocol = tcp;
  payload = codes "BYE";
  local_addr = server;
  remote_addr = peer;
}

abbrev fresh : Connection
fresh = record { local_addr = server; remote_addr = peer; buffer = [] }

abbrev spawned_only : Sockets
spawned_only = tcp_accepted peer (started 4)

abbrev accepted : Sockets
accepted = stream_begun 1 (some server) peer spawned_only

abbrev asked : Sockets
asked = transmit_taken (sent 0) bye accepted

abbrev ended : Sockets
ended = connection_ended 1 fresh asked

abbrev written : Sockets
written = detached_write true 1 ended

empty_waits : next_sip_message [] ≡ none
unfolding next_sip_message find
empty_waits = refl

peer_spawned : spawned_only.connections 1 ≡ some (spawned peer)
unfolding tcp_accepted
peer_spawned = refl

asked_fresh : asked.connections 1 ≡ some (reading fresh)
unfolding tcp_accepted stream_begun transmit_taken
asked_fresh = refl

abbrev channel : TransmitState
channel = record { queue = []; capacity = 2; receiving = true }

abbrev packet : SendPacket
packet = packet_of 96 bye

packet_sent :
    runtime_send_callback 400 96 (some packet) (some channel)
    ≡ (pos 0, some (record channel { queue = bye ∷ [] }))
packet_sent =
    runtime_send_callback-packet_of 400 96 96 bye channel (omega arith) (λ e. absurd (ground arith))
      (omega arith, omega arith, omega arith, omega arith)
      (omega arith, omega arith, omega arith, omega arith) refl (omega arith)

abbrev written_run : SendRun 400 96 4 (5 ∷ []) channel written
written_run = sockets (write_detached true 1) refl (
    sockets (end_of_stream 1 fresh asked_fresh empty_waits) refl (
      receive (sent 0) bye [] refl (
        callback packet (pos 0) packet_sent (
          sockets (begin_stream 1 (some server) peer peer_spawned) refl
            (accept peer (begin channel refl))))))

written_smooth : AllSmooth 400 96 written_run
unfolding tcp_accepted stream_begun insert_writer detach transmit_taken write_transmit
    write_reliable queue_at try_queue connection_ended push_command
written_smooth = ((((tt, tt), omega arith), tt), (refl, omega arith))

one_report : reported 5 (queued written) ≡ 1
unfolding tcp_accepted stream_begun transmit_taken connection_ended detached_write
one_report = refl

SendRun-reported_example :
    reported 5 (queued written)
      + owed 5 written.tasks.writers
      + owed 5 written.detached
      + waiting 5 channel.queue
    ≤ occurrences 5 (5 ∷ [])
SendRun-reported_example = SendRun-reported 400 96 5 written_run

SendRun-accounts_example :
    reported 5 (queued written)
      + owed 5 written.tasks.writers
      + owed 5 written.detached
      + waiting 5 channel.queue
    ≡ occurrences 5 (5 ∷ [])
SendRun-accounts_example = SendRun-accounts 400 96 5 written_run written_smooth
