-- ===== src/Runtime/Config/Valid.antt =====
-- Which configurations and sockets src/runtime.rs starts with.
use gmv_pjsip.Prelude.{ℕ, ◌≤◌, ◌≡◌, ◌≢◌, ◌⊎◌, ◌↔◌, true, false, [], none, arith}
use gmv_pjsip.Error.{ok}
use gmv_pjsip.Runtime.Types.{SipRuntimeConfig, SipRuntimeSockets}
use gmv_pjsip.Runtime.State.{u32_max, as_millis, duration_millis}
use gmv_pjsip.Runtime.Checks.{has_nul, has_control}
use gmv_pjsip.Runtime.Config.{validate, validate_sockets}

abbrev IsTimeout : ℕ → Type 0
IsTimeout duration = (1 ≤ as_millis duration) × (as_millis duration ≤ u32_max)

pub record IsUsable (c : SipRuntimeConfig) : Type 0 where
  pub transport : (c.enable_udp ≡ true) ⊎ (c.enable_tcp ≡ true)
  pub async : c.async_count ≢ 0
  pub realm : (c.auth_realm ≢ []) × (has_nul c.auth_realm ≡ false)
  pub pending : c.max_pending_auth ≢ 0
  pub queue : c.io_queue_capacity ≢ 0
  pub agent : (c.user_agent ≢ []) × (has_control c.user_agent ≡ false)
  pub poll : IsTimeout c.poll_timeout
  pub lookup : IsTimeout c.auth_lookup_timeout

-- `validate` succeeds exactly for usable configurations, and then with the two durations in whole
-- milliseconds, which are positive and fit 32 bits.
pub validate_iff :
    (c : SipRuntimeConfig) (t : ℕ × ℕ)
    → (validate c ≡ ok t)
      ↔ (IsUsable c × (t ≡ (as_millis c.poll_timeout, as_millis c.auth_lookup_timeout)))
unfolding validate duration_millis
validate_iff c t = ground arith

pub record HasSockets (c : SipRuntimeConfig) (s : SipRuntimeSockets) : Type 0 where
  pub one : (s.udp_socket ≢ none) ⊎ (s.tcp_listener ≢ none) ⊎ (s.tls_listener ≢ none)
  pub udp : s.udp_socket ≢ none → c.enable_udp ≡ true
  pub tcp : s.tcp_listener ≢ none → c.enable_tcp ≡ true
  pub tls : s.tls_listener ≢ none → c.tls_config ≢ none

-- `validate_sockets` succeeds exactly when there is a socket, and each socket that there is is enabled
-- by the configuration.
pub validate_sockets_iff :
    (c : SipRuntimeConfig) (s : SipRuntimeSockets) → (validate_sockets c s ≡ ok tt) ↔ HasSockets c s
unfolding validate_sockets
validate_sockets_iff c s = ground arith
