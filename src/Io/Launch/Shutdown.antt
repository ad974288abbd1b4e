-- ===== src/Io/Launch/Shutdown.antt =====
-- The loop of `run_io` in src/io.rs, and what becomes of the requests behind it.
use gmv_pjsip.Prelude.{ℕ, Bool, true, false, not, List, [], ◌∷◌, Option, none, some}
use gmv_pjsip.Prelude.Int.{pos}
use gmv_pjsip.Runtime.State.{SendResult, sent, failed}
use gmv_pjsip.Io.Connections.{Sockets, transmit_taken}
use gmv_pjsip.Io.Launch.{Turn, outgoing, shutdown_changed, leaves}

-- No shutdown is asked for, and the channel is not closed.
abbrev pub stays : Turn → Bool
stays (outgoing answer t) = true
stays (shutdown_changed news) = not (leaves news)

-- The result of a send over UDP: the bytes sent, or a failure, also where there is no UDP socket.
abbrev udp_result : Bool → Option ℕ → SendResult
udp_result true (some bytes) = sent bytes
udp_result true none = failed (pos 1)
udp_result false answer = failed (pos 1)

-- Every send of the turns, handled in their order.
abbrev pub all_sent : Bool → List Turn → Sockets → Sockets
all_sent udp [] s = s
all_sent udp (outgoing answer t ∷ turns) s =
    all_sent udp turns (transmit_taken (udp_result udp answer) t s)
all_sent udp (shutdown_changed news ∷ turns) s = all_sent udp turns s
