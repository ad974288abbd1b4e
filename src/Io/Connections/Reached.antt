-- ===== src/Io/Connections/Reached.antt =====
-- What holds of everything that the socket tasks of src/io.rs queue, in every order of their steps.
use mathlib.Core.List.{Mem, mem-cons, not-mem-nil}
use mathlib.Core.Logic.Or
use gmv_pjsip.Prelude.{
  ℕ, zero, suc, ◌-◌, ◌^◌, ltb, ◌==◌, Bool-cases, inl, inr, ◌+◌, ◌<◌, ◌≡◌, refl, ◌∙◌, Bool, true,
  false, not, List, [], ◌∷◌, none, some, ◌%◌, arith, is_empty, append_assoc, ◌||◌, all,
}
use gmv_pjsip.Prelude.Int.{ℤ, pos, negsuc, abs_i32, max_one, negate}
use gmv_pjsip.Error.{invalid_config, ◌>>◌, fail_if}
use gmv_pjsip.Transport.{SocketAddr, udp, tcp, tls, is_ipv4}
use gmv_pjsip.Runtime.Ffi.{Shim, ShimCall, ReceivedPacket}
use gmv_pjsip.Runtime.State.{
  SipRuntime, RuntimeIoCommand, sent, failed, receive, send_done, transport_closed, invoke, checked,
}
use gmv_pjsip.Runtime.Packets.{
  check_packet, packet_request, receive_packet, sent_bytes_of, complete_send, close_transport,
}
use gmv_pjsip.Runtime.Requests.Later.{IsPacket, packet_request-IsPacket}
use gmv_pjsip.Io.Framing.{usize_mod}
use gmv_pjsip.Io.Connections.{
  Sockets, queued, udp_received, attached_write, detached_write, tcp_accepted, stream_begun,
  begin_stream, chunk_read, message_read, connection_ended, insert_writer, transmit_taken, Step,
  datagram, chunk, message, end_of_stream, transmit, write, write_detached, take_command, started,
  Reach, start, accepting, step,
}
use gmv_pjsip.Io.Connections.Closing.{Ordered, sound}
use gmv_pjsip.Io.Connections.Table.{has_writer}
use gmv_pjsip.Io.Connections.Kept.{
  Kept, is_open, udp_received-Kept, chunk_read-Kept, message_read-Kept, connection_ended-Kept,
  transmit_taken-Kept, attached_write-Kept, detached_write-Kept, tcp_accepted-Kept,
  stream_begun-Kept,
}

started-Kept : (capacity : ℕ) → Kept (started capacity)
started-Kept capacity = record {
  history = record {
    open_below = λ i c e. absurd (ground arith);
    ended = λ i e. absurd (ground arith);
    order = tt;
    all_sound = refl;
  };
  table = λ i. refl;
}

Step-Kept : {s t : Sockets} → Step s t → Kept s → Kept t
Step-Kept {s} (datagram l r d) k = udp_received-Kept l r d s k
Step-Kept {s} (begin_stream i local remote_addr e) k = stream_begun-Kept i local remote_addr s e k
Step-Kept {s} (chunk i c bytes e idle some_bytes few) k = chunk_read-Kept i c bytes s e k
Step-Kept {s} (message i c m rest e framed) k = message_read-Kept i c m rest s e k
Step-Kept {s} (end_of_stream i c e idle) k = connection_ended-Kept i c s e k
Step-Kept {s} (transmit answer t) k = transmit_taken-Kept answer t s k
Step-Kept {s} (write written i) k = attached_write-Kept written i s k
Step-Kept {s} (write_detached written i) k = detached_write-Kept written i s k
Step-Kept {s} (take_command c cs e) k = record {
  history = rw (append_assoc s.taken (c ∷ []) cs) (rw e at k.history);
  table = k.table;
}

Step-counter : {s t : Sockets} → Step s t → t.next_association_id ≡ s.next_association_id
unfolding udp_received stream_begun insert_writer chunk_read message_read connection_ended
    transmit_taken attached_write detached_write
Step-counter (datagram l r []) = refl
Step-counter (datagram l r (x ∷ d)) = refl
Step-counter (begin_stream i none remote_addr e) = refl
Step-counter (begin_stream i (some l) remote_addr e) = refl
Step-counter (chunk i c bytes e idle some_bytes few) = refl
Step-counter (message i c m rest e framed) = refl
Step-counter (end_of_stream i c e idle) = refl
Step-counter (transmit answer t) = refl
Step-counter (write written i) = refl
Step-counter (write_detached written i) = refl
Step-counter (take_command c cs e) = refl

tcp_accepted-counter :
    (remote_addr : SocketAddr) (s : Sockets)
    → (tcp_accepted remote_addr s).next_association_id ≡ suc s.next_association_id % usize_mod
unfolding tcp_accepted
tcp_accepted-counter remote_addr s = refl

Reach-Kept :
    {capacity n : ℕ} {s : Sockets}
    → Reach capacity n s
    → n + 1 < usize_mod
    → (s.next_association_id ≡ n + 1) × Kept s
Reach-Kept {capacity} start small = (refl, started-Kept capacity)
Reach-Kept (accepting {s = s} remote_addr r) small =
    let (e, k) = Reach-Kept r (omega arith) in
    (
      omega (arith, tcp_accepted-counter remote_addr s),
      tcp_accepted-Kept remote_addr s (omega arith) (omega arith) k,
    )
Reach-Kept (step r st) small =
    let (e, k) = Reach-Kept r small in (Step-counter st ∙ e, Step-Kept st k)

all-Mem :
    {A : Type 0} (p : A → Bool) (xs : List A) (x : A) → all p xs ≡ true → Mem x xs → p x ≡ true
all-Mem p [] x h m = absurd (not-mem-nil m)
all-Mem p (y ∷ xs) x h m =
    Or.elim (hlevel) (mem-cons.0 m) (λ e. rw e (ground arith))
      (λ later. all-Mem p xs x (ground arith) later)

-- A failure is reported as a negative number, whatever its status.
failure-negative : (status : ℤ) → (k : ℕ) × (negate (max_one (abs_i32 status)) ≡ negsuc k)
failure-negative (pos zero) = (0, refl)
failure-negative (pos (suc n)) = (n, ground arith)
failure-negative (negsuc n) = elim (Bool-cases (n == 2 ^ 31 - 1)) [
  | inl y ↦ (0, rw y refl)
  | inr m ↦ (n, rw m (ground arith))
]

-- What is left of the checks of the runtime for a command of the socket tasks.
module _ {shim : Shim} where
  abbrev pub Handed : SipRuntime shim → RuntimeIoCommand → Type 0
  Handed rt (receive k p l r d) =
      (request : ReceivedPacket) × IsPacket k p l r d request
      × (receive_packet rt k p l r d
          ≡ checked
              (fail_if (is_empty d) (invalid_config "received SIP packet must not be empty")
                >> fail_if (not (is_ipv4 l) || not (is_ipv4 r))
                    (invalid_config "SIP runtime socket adapter supports IPv4 only"))
              rt (invoke "receive_packet" (ShimCall.receive_packet request) rt))
  Handed rt (send_done n (sent bytes)) =
      complete_send rt n (sent bytes)
      ≡ checked
          (fail_if (n == 0) (invalid_config "cannot complete an invalid or stopped send")
            >> fail_if (ltb (2 ^ 63 - 1) bytes) (invalid_config "sent byte count exceeds i64"))
          rt
          (invoke "complete_send"
            (ShimCall.complete_send (record { send_id = n; sent_bytes = pos bytes })) rt)
  Handed rt (send_done n (failed status)) =
      (k : ℕ) × (complete_send rt n (failed status)
        ≡ checked (fail_if (n == 0) (invalid_config "cannot complete an invalid or stopped send"))
            rt
            (invoke "complete_send"
              (ShimCall.complete_send (record { send_id = n; sent_bytes = negsuc k })) rt))
  Handed rt (transport_closed k p l r s) =
      close_transport rt k p s ≡ invoke "close_transport" (ShimCall.close_transport k 2 s) rt

  sound-Handed :
      (rt : SipRuntime shim) (c : RuntimeIoCommand)
      → rt.stopped ≡ false
      → sound c ≡ true
      → Handed rt c
  unfolding receive_packet complete_send sent_bytes_of close_transport check_packet checked
  sound-Handed rt (receive k udp l r d) running e = (
    packet_request k udp l r d,
    packet_request-IsPacket k udp l r d (λ z. absurd (ground arith)),
    rw running (ground arith),
  )
  sound-Handed rt (receive k tcp l r d) running e = (
    packet_request k tcp l r d,
    packet_request-IsPacket k tcp l r d (λ z. absurd (ground arith)),
    rw running (ground arith),
  )
  sound-Handed rt (receive k tls l r d) running e = absurd (ground arith)
  sound-Handed rt (send_done n (sent bytes)) running e = rw running (ground arith)
  sound-Handed rt (send_done n (failed status)) running e =
      let (k, negative) = failure-negative status in (k, rw (running, negative) (ground arith))
  sound-Handed rt (transport_closed k udp l r s) running e = absurd (ground arith)
  sound-Handed rt (transport_closed k tcp l r s) running e = rw running (ground arith)
  sound-Handed rt (transport_closed k tls l r s) running e = absurd (ground arith)

module _ {capacity n : ℕ} {s : Sockets} (r : Reach capacity n s) (small : n + 1 < usize_mod) where
  -- As long as fewer than 2^64 - 1 connections were accepted, and in whatever order the tasks and the
  -- runtime's thread take their turns: once the end of an association is queued, neither a message
  -- of it nor another end is queued behind.
  pub queued-Ordered : Ordered (queued s)
  queued-Ordered = (Reach-Kept r small).1.history.order

  -- As long as fewer than 2^64 - 1 connections were accepted, the table has a writer of an
  -- association just while the stream of that association is read.
  pub has_writer-is_open : (i : ℕ) → has_writer i s.tasks.writers ≡ is_open (s.connections i)
  has_writer-is_open = (Reach-Kept r small).1.table

  -- As long as fewer than 2^64 - 1 connections were accepted, a command that the socket tasks queue
  -- passes the checks of a runtime that is not stopped but for what follows, and then gets to the shim:
  -- a packet is refused where it is empty or an address is not IPv4, a completion where its number is
  -- zero or its count of bytes exceeds an i64, and the end of an association never. A packet arrives
  -- with its association, its transport, its bytes and both addresses, a completion with its number and
  -- its count of bytes, which is negative where the send failed.
  pub queued-Handed :
      {shim : Shim} (rt : SipRuntime shim) (c : RuntimeIoCommand)
      → rt.stopped ≡ false
      → Mem c (queued s)
      → Handed rt c
  queued-Handed rt c running m =
      sound-Handed rt c running
        (all-Mem sound (queued s) c (Reach-Kept r small).1.history.all_sound m)
