-- ===== src/System/Closed.antt =====
-- How often the application hears of the end of a connection.
use gmv_pjsip.Prelude.{
  ℕ, ◌+◌, ◌≤◌, ◌<◌, ◌≡◌, refl, Bool, true, false, List, [], ◌∷◌, ◌++◌, Option, none, some, arith,
  ◌==◌, any, Bool-cases, inl, inr,
}
use gmv_pjsip.Prelude.Int.{ℤ}
use gmv_pjsip.Transport.{SipTransportProtocol, SocketAddr}
use gmv_pjsip.Runtime.Types.{SipRuntimeEvent}
use gmv_pjsip.Runtime.Ffi.{Shim}
use gmv_pjsip.Runtime.State.{
  SipRuntime, RuntimeIoCommand, receive, send_done, transport_closed, SendResult, checked, invoke,
}
use gmv_pjsip.Runtime.Packets.{receive_packet, complete_send, close_transport}
use gmv_pjsip.Runtime.Lifecycle.{closed_event, handle_command}
use gmv_pjsip.Io.Framing.{usize_mod}
use gmv_pjsip.Io.Connections.{
  Sockets, tcp_accepted, queued, take_command, Reach, start, accepting, step,
}
use gmv_pjsip.Io.Connections.Closing.{concerns, closes, Ordered}
use gmv_pjsip.Io.Connections.Reached.{queued-Ordered}
use gmv_pjsip.System.{Run, begin, accept, sockets, drain, call}

abbrev one_if : Bool → ℕ
one_if true = 1
one_if false = 0

abbrev names : ℕ → Option ℕ → Bool
names i none = false
names i (some k) = k == i

-- How many events name an association.
abbrev pub events_of : ℕ → List SipRuntimeEvent → ℕ
events_of i [] = 0
events_of i (e ∷ es) = one_if (names i e.association_id) + events_of i es

-- How often an end of the association is among the commands.
abbrev pub endings : ℕ → List RuntimeIoCommand → ℕ
endings i [] = 0
endings i (c ∷ cs) = one_if (closes i c) + endings i cs

endings-append :
    (i : ℕ) (cs ds : List RuntimeIoCommand) → endings i (cs ++ ds) ≡ endings i cs + endings i ds
endings-append i [] ds = omega arith
endings-append i (c ∷ cs) ds = omega (arith, endings-append i cs ds)

endings-none : (i : ℕ) (cs : List RuntimeIoCommand) → any (concerns i) cs ≡ false → endings i cs ≡ 0
endings-none i [] h = refl
endings-none i (receive k p l r d ∷ cs) h = ground (arith, endings-none i cs)
endings-none i (send_done n r ∷ cs) h = ground (arith, endings-none i cs)
endings-none i (transport_closed k p l r s ∷ cs) h = ground (arith, endings-none i cs)

endings-Ordered : (i : ℕ) (cs : List RuntimeIoCommand) → Ordered cs → endings i cs ≤ 1
endings-Ordered i [] o = omega arith
endings-Ordered i (c ∷ cs) o = elim (Bool-cases (closes i c)) [
  | inl y ↦ rw y (omega (arith, endings-none i cs (o.0 i y)))
  | inr n ↦ rw n (omega (arith, endings-Ordered i cs o.1))
]

tcp_accepted-taken :
    (remote_addr : SocketAddr) (s : Sockets) → (tcp_accepted remote_addr s).taken ≡ s.taken
unfolding tcp_accepted
tcp_accepted-taken remote_addr s = refl

module _ {shim : Shim} where
  receive_packet-events :
      (rt : SipRuntime shim) (k : ℕ) (p : SipTransportProtocol) (l r : SocketAddr) (d : List ℕ)
      → (receive_packet rt k p l r d).1.events ≡ rt.events
  unfolding receive_packet checked invoke
  receive_packet-events rt k p l r d = ground arith

  complete_send-events :
      (rt : SipRuntime shim) (n : ℕ) (r : SendResult) → (complete_send rt n r).1.events ≡ rt.events
  unfolding complete_send checked invoke
  complete_send-events rt n r = ground arith

  close_transport-events :
      (rt : SipRuntime shim) (k : ℕ) (p : SipTransportProtocol) (s : ℤ)
      → (close_transport rt k p s).1.events ≡ rt.events
  unfolding close_transport checked invoke
  close_transport-events rt k p s = ground arith

  -- A command adds an event of its association just when it is an end of it.
  handle_command-events_of :
      (i : ℕ) (c : RuntimeIoCommand) (rt : SipRuntime shim)
      → events_of i (handle_command rt c).events ≡ one_if (closes i c) + events_of i rt.events
  unfolding handle_command
  handle_command-events_of i (receive k p l r d) rt =
      rw (receive_packet-events rt k p l r d) (omega arith)
  handle_command-events_of i (send_done n r) rt = rw (complete_send-events rt n r) (omega arith)
  handle_command-events_of i (transport_closed k p l r s) rt =
      rw (close_transport-events rt k p s) (unfold closed_event in omega arith)

  Run-Reach :
      {capacity n : ℕ} {s : Sockets} {rt : SipRuntime shim}
      → Run shim capacity n s rt
      → Reach capacity n s
  Run-Reach (begin rt e) = start
  Run-Reach (accept remote_addr r) = accepting remote_addr (Run-Reach r)
  Run-Reach (sockets st e r) = step (Run-Reach r) st
  Run-Reach (drain c cs e r) = step (Run-Reach r) (take_command c cs e)
  Run-Reach (call e r) = Run-Reach r

  Run-events_of :
      {capacity n : ℕ} {s : Sockets} {rt : SipRuntime shim} (i : ℕ)
      → Run shim capacity n s rt
      → events_of i rt.events ≡ endings i s.taken
  Run-events_of i (begin rt e) = rw e refl
  Run-events_of i (accept {s = s} remote_addr r) =
      rw (tcp_accepted-taken remote_addr s) (Run-events_of i r)
  Run-events_of i (sockets st e r) = rw e (Run-events_of i r)
  Run-events_of i (drain {s = s} {rt = rt} c cs e r) =
      omega (
        arith,
        handle_command-events_of i c rt,
        Run-events_of i r,
        endings-append i s.taken (c ∷ []),
      )
  Run-events_of i (call e r) = rw e (Run-events_of i r)

  -- As long as fewer than 2^64 - 1 connections were accepted: however the socket tasks, the draining of
  -- the queue and the other methods of the runtime take turns, the thread of the runtime tells the
  -- application at most once that a connection has ended, and it does so only when the end was taken
  -- off the queue.
  pub Run-once :
      {capacity n : ℕ} {s : Sockets} {rt : SipRuntime shim} (i : ℕ)
      → Run shim capacity n s rt
      → n + 1 < usize_mod
      → (events_of i rt.events ≤ 1) × (events_of i rt.events ≡ endings i s.taken)
  Run-once {s = s} i r small =
      let once = endings-Ordered i (queued s) (queued-Ordered (Run-Reach r) small) in
      let told = Run-events_of i r in
      (omega (arith, endings-append i s.taken s.tasks.commands), told)
