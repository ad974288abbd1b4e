-- ===== src/Io/Launch.antt =====
-- `SocketIoRuntime::start` and its destructor, `prepare_udp_socket`, `prepare_tcp_listener`, and
-- `run_io` of src/io.rs: the tasks it spawns, and its loop. What the system answers is an argument.
pub mod Shutdown
use Prim.Native.String.{String}
use gmv_pjsip.Prelude.{ℕ, Bool, true, false, List, [], ◌∷◌, ◌++◌, Option, none, some, if◌then◌else◌}
use gmv_pjsip.Prelude.Int.{pos}
use gmv_pjsip.Error.{internal_error, Result, ok, err, ◌>>◌, fail_if}
use gmv_pjsip.Runtime.Types.{SipTransmit, SipRuntimeSockets}
use gmv_pjsip.Runtime.State.{SendResult, sent, failed}
use gmv_pjsip.Runtime.Checks.{is_none}
use gmv_pjsip.Io.Connections.{Sockets, transmit_taken}

-- The last value of the channel `shutdown`, and whether the thread is still to be joined.
pub record SocketIoRuntime : Type 0 where
  pub shutdown : Bool
  pub joinable : Bool

unfoldable pub start_io : Bool → Result SocketIoRuntime
start_io spawned =
    if spawned
    then ok (record { shutdown = false; joinable = true })
    else err (internal_error "spawn SIP socket IO task failed")

unfoldable pub drop_io : SocketIoRuntime → SocketIoRuntime
drop_io io = record { shutdown = true; joinable = false }

-- Whether the socket could be made nonblocking, and whether tokio took it.
unfoldable pub prepare_udp_socket : Bool → Bool → Result (Unit {0})
prepare_udp_socket nonblocking adopted =
    if nonblocking
    then if adopted then ok tt else err (internal_error "adopt UDP socket failed")
    else err (internal_error "set UDP socket nonblocking failed")

unfoldable pub prepare_tcp_listener : Bool → Bool → Result (Unit {0})
prepare_tcp_listener nonblocking adopted =
    if nonblocking
    then if adopted then ok tt else err (internal_error "adopt TCP listener failed")
    else err (internal_error "set TCP listener nonblocking failed")

-- How the preparation of the sockets came out that were given.
pub record Prepared : Type 0 where
  pub udp : Option (Result (Unit {0}))
  pub tcp : Option (Result (Unit {0}))

-- What the system says to the preparation of any socket: nonblocking, adopted.
unfoldable pub prepare : (Bool × Bool) → (Bool × Bool) → SipRuntimeSockets → Prepared
unfolding prepare_udp_socket prepare_tcp_listener
prepare (nonblocking_udp, adopted_udp) (nonblocking_tcp, adopted_tcp) sockets = record {
  udp = elim sockets.udp_socket [
    | none ↦ none
    | some address ↦ some (prepare_udp_socket nonblocking_udp adopted_udp)
  ];
  tcp = elim sockets.tcp_listener [
    | none ↦ none
    | some address ↦ some (prepare_tcp_listener nonblocking_tcp adopted_tcp)
  ];
}

pub data SocketTask : Type 0 where
  read_udp accept_tcp : SocketTask

abbrev pub prepared_ok : Option (Result (Unit {0})) → Bool
prepared_ok none = false
prepared_ok (some (ok _)) = true
prepared_ok (some (err e)) = false

-- The tasks spawned, in order. A socket that could not be prepared is passed over with a warning, and
-- a TLS listener is not served at all.
unfoldable pub spawned_tasks : Prepared → List SocketTask
spawned_tasks p =
    (if prepared_ok p.udp then read_udp ∷ [] else [])
    ++ (if prepared_ok p.tcp then accept_tcp ∷ [] else [])

-- What a round of the loop finds: a send with the number of bytes that `send_to` would send, or news
-- on the channel `shutdown`: `none` where it is closed.
pub data Turn : Type 0 where
  outgoing : Option ℕ → SipTransmit → Turn
  shutdown_changed : Option Bool → Turn

-- `result` in the branch for UDP
abbrev pub udp_answer : Bool → Option ℕ → SendResult
udp_answer false answer = failed (pos 1)
udp_answer true none = failed (pos 1)
udp_answer true (some bytes) = sent bytes

abbrev pub leaves : Option Bool → Bool
leaves none = true
leaves (some shutdown) = shutdown

-- The loop of `run_io`; the first argument says whether there is a UDP socket.
unfoldable pub run_loop : Bool → List Turn → Sockets → Sockets
unfolding transmit_taken
run_loop udp [] s = s
run_loop udp (outgoing answer t ∷ turns) s =
    run_loop udp turns (transmit_taken (udp_answer udp answer) t s)
run_loop udp (shutdown_changed news ∷ turns) s =
    let rest = run_loop udp turns s in if leaves news then s else rest
