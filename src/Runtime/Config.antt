-- ===== src/Runtime/Config.antt =====
-- `SipRuntimeConfig::validate`, its defaults and `validate_sockets` of src/runtime.rs.
pub mod Valid
use gmv_pjsip.Prelude.{
  ℕ, ◌*◌, Bool, true, false, not, ◌&&◌, ◌||◌, List, [], ◌∷◌, Option, none, some, ◌==◌, is_empty,
}
use gmv_pjsip.Error.{Result, ok, err, ◌>>=◌, ◌>>◌, fail_if, invalid_config}
use gmv_pjsip.Text.{codes}
use gmv_pjsip.Auth.{md5}
use gmv_pjsip.Runtime.Types.{SipRuntimeConfig, SipRuntimeSockets}
use gmv_pjsip.Runtime.State.{duration_millis}
use gmv_pjsip.Runtime.Checks.{has_nul, has_control, is_none}

-- `Duration::from_millis`
abbrev pub from_millis : ℕ → ℕ
from_millis millis = millis * 1000000

abbrev pub default_config : SipRuntimeConfig
default_config = record {
  advertised_address = 127 ∷ 0 ∷ 0 ∷ 1 ∷ [];
  port = 0;
  enable_udp = true;
  enable_tcp = true;
  async_count = 1;
  poll_timeout = from_millis 10;
  auth_realm = codes "3402000000";
  auth_algorithm = md5;
  max_pending_auth = 20000;
  auth_lookup_timeout = from_millis 3000;
  io_queue_capacity = 32768;
  user_agent = codes "GMV-PJSIP/0.1";
  tls_config = none;
}

-- The two durations in milliseconds.
unfoldable pub validate : SipRuntimeConfig → Result (ℕ × ℕ)
validate c = do
  fail_if (not c.enable_udp && not c.enable_tcp)
      (invalid_config "at least one of UDP or TCP must be enabled")
  fail_if (c.async_count == 0) (invalid_config "async_count must be greater than zero")
  fail_if (is_empty c.auth_realm || has_nul c.auth_realm)
      (invalid_config "auth_realm must be non-empty and contain no NUL byte")
  fail_if (c.max_pending_auth == 0) (invalid_config "max_pending_auth must be greater than zero")
  fail_if (c.io_queue_capacity == 0) (invalid_config "io_queue_capacity must be greater than zero")
  fail_if (is_empty c.user_agent || has_control c.user_agent)
      (invalid_config "user_agent must be non-empty and contain no NUL, CR, or LF byte")
  poll_timeout_ms ← duration_millis "poll_timeout" c.poll_timeout
  auth_lookup_timeout_ms ← duration_millis "auth_lookup_timeout" c.auth_lookup_timeout
  ok (poll_timeout_ms, auth_lookup_timeout_ms)

unfoldable pub validate_sockets : SipRuntimeConfig → SipRuntimeSockets → Result (Unit {0})
validate_sockets c s = do
  fail_if (is_none s.udp_socket && is_none s.tcp_listener && is_none s.tls_listener)
      (invalid_config "at least one SIP UDP, TCP, or TLS socket must be provided")
  fail_if (not (is_none s.udp_socket) && not c.enable_udp)
      (invalid_config "UDP socket was provided while enable_udp is false")
  fail_if (not (is_none s.tcp_listener) && not c.enable_tcp)
      (invalid_config "TCP listener was provided while enable_tcp is false")
  fail_if (not (is_none s.tls_listener) && is_none c.tls_config)
      (invalid_config "TLS listener requires SipTlsConfig")
