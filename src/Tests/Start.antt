-- ===== src/Tests/Start.antt =====
-- The start of src/runtime.rs over a shim that records the calls it gets.
use gmv_pjsip.Prelude.{ℕ, ◌≡◌, refl, ◌↔◌, false, List, [], ◌∷◌, some, none}
use gmv_pjsip.Prelude.Int.{pos}
use gmv_pjsip.Error.{GlobalError, ok}
use gmv_pjsip.Text.{as_bytes}
use gmv_pjsip.Transport.{v4}
use gmv_pjsip.Runtime.Types.{SipRuntimeSockets}
use gmv_pjsip.Runtime.Ffi.{Shim, ShimCall}
use gmv_pjsip.Runtime.State.{as_millis, duration_millis}
use gmv_pjsip.Runtime.Config.{default_config, validate, validate_sockets}
use gmv_pjsip.Runtime.Config.Valid.{IsUsable, validate_iff}
use gmv_pjsip.Runtime.Start.{free, destroyed, Surroundings, start}
use gmv_pjsip.Runtime.Start.Configured.{start_config}

abbrev recorder : Shim
recorder = record {
  State = List ShimCall;
  invoke = λ call calls. (pos 0, call ∷ calls);
  algorithm_id = λ _. pos 1;
  credential_id = λ _. pos 2;
}

abbrev no_thread : Surroundings recorder
no_thread = record {
  create = λ _. (pos 0, some []);
  io_thread = false;
  tracing = false;
  lock = free;
  sip_cseq = 0;
}

abbrev sockets : SipRuntimeSockets
sockets = record { udp_socket = some (v4 10 0 0 1 5060); tcp_listener = none; tls_listener = none }

-- The handle is stopped and destroyed when the thread of the socket tasks cannot be spawned.
unspawned :
    (e : GlobalError) × (start no_thread default_config sockets ≡ (
      start_config no_thread default_config sockets ∷ [],
      destroyed e (ShimCall.destroy ∷ ShimCall.stop ∷ ShimCall.start ∷ []),
    ))
unfolding start validate validate_sockets as_bytes duration_millis
unspawned = (_, refl)

validate_iff_example : (validate default_config ≡ ok (10, 3000)) ↔ (
    IsUsable default_config
    × (◌≡◌ {A = ℕ × ℕ}
        (10, 3000)
        (as_millis default_config.poll_timeout, as_millis default_config.auth_lookup_timeout)))
validate_iff_example = validate_iff default_config (10, 3000)
