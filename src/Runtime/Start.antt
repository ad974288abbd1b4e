-- ===== src/Runtime/Start.antt =====
-- `SipRuntime::start` and `start_for_test` of src/runtime.rs: from a configuration to a runtime.
pub mod Configured
pub mod Handles
use gmv_pjsip.Prelude.{
  ℕ, Bool, true, false, not, ◌&&◌, ◌||◌, List, [], ◌∷◌, ◌++◌, Option, none, some, if◌then◌else◌,
}
use gmv_pjsip.Prelude.Int.{ℤ, is_zero}
use gmv_pjsip.Error.{
  GlobalError, internal_error, runtime_active, pjsip_error, Result, ok, err, ◌>>=◌, ◌>>◌,
}
use gmv_pjsip.Transport.{v4}
use gmv_pjsip.Transport.Display.{ip_text}
use gmv_pjsip.Text.{Text, print_uint}
use gmv_pjsip.Runtime.Types.{SipRuntimeConfig, SipRuntimeSockets}
use gmv_pjsip.Runtime.Ffi.{Shim, ShimCall, StringView, string_view}
use gmv_pjsip.Runtime.State.{SipRuntime}
use gmv_pjsip.Runtime.Checks.{is_none}
use gmv_pjsip.Runtime.Config.{validate, validate_sockets}

-- `RUNTIME_LOCK.try_lock()`: a poisoned lock is taken all the same.
pub data Lock : Type 0 where
  free held poisoned : Lock

-- The fields of `gmv_sip_runtime_config_t` that are set; the callbacks are left out. The level of
-- the log is set only where tracing is on.
pub record RuntimeConfig : Type 0 where
  pub bind_address : StringView
  pub port : ℕ
  pub enable_udp : Bool
  pub enable_tcp : Bool
  pub async_count : ℕ
  pub poll_timeout_ms : ℕ
  pub auth_realm : StringView
  pub auth_algorithm_type : ℤ
  pub max_pending_auth : ℕ
  pub auth_lookup_timeout_ms : ℕ
  pub user_agent : StringView
  pub log_level : Option ℕ

-- How a start ends: with no handle, with the handle destroyed, or with a runtime, which then
-- holds the lock.
pub data Started (shim : Shim) : Type 0 where
  refused : GlobalError → Started shim
  destroyed : GlobalError → shim.State → Started shim
  running : SipRuntime shim → Started shim

-- `Ipv4Addr::to_string`
address_text : List ℕ → Text
address_text [] = []
address_text (b ∷ []) = print_uint b
address_text (b ∷ c ∷ bs) = print_uint b ++ (b'.' ∷ address_text (c ∷ bs))

-- What the start takes from its surroundings: `gmv_sip_runtime_create` with its status and handle,
-- whether the thread of the socket tasks could be spawned, whether tracing is on, the lock, and
-- SIP_CSEQ.
pub record Surroundings (shim : Shim) : Type 0 where
  pub create : RuntimeConfig → ℤ × Option shim.State
  pub io_thread : Bool
  pub tracing : Bool
  pub lock : Lock
  pub sip_cseq : ℕ

module _ {shim : Shim} where
  unfoldable pub ffi_config :
      Surroundings shim → SipRuntimeConfig → Bool → Bool → ℕ × ℕ → RuntimeConfig
  unfolding address_text
  ffi_config w c udp tcp (poll_timeout_ms, auth_lookup_timeout_ms) = record {
    bind_address = string_view (address_text c.advertised_address);
    port = c.port;
    enable_udp = udp;
    enable_tcp = tcp;
    async_count = c.async_count;
    poll_timeout_ms = poll_timeout_ms;
    auth_realm = string_view c.auth_realm;
    auth_algorithm_type = shim.algorithm_id c.auth_algorithm;
    max_pending_auth = c.max_pending_auth;
    auth_lookup_timeout_ms = auth_lookup_timeout_ms;
    user_agent = string_view c.user_agent;
    log_level = if w.tracing then some 5 else none;
  }

  -- With the handle started: the socket tasks, and the runtime.
  unfoldable pub with_started : Surroundings shim → Bool → shim.State → Started shim
  with_started w io raw =
      if io
      then running (record {
        raw = raw;
        stopped = false;
        events = [];
        io_commands = [];
        sip_cseq = w.sip_cseq;
      })
      else destroyed (internal_error "spawn SIP socket IO task failed")
          (shim.invoke ShimCall.destroy (shim.invoke ShimCall.stop raw).1).1

  -- With the handle created: `gmv_sip_runtime_start`, which destroys the handle if it fails.
  unfoldable pub with_handle : Surroundings shim → Bool → Option shim.State → Started shim
  unfolding with_started
  with_handle w io none = refused (internal_error "PJSIP runtime create returned a null handle")
  with_handle w io (some raw) =
      let (status, raw') = shim.invoke ShimCall.start raw in
      if is_zero status
      then with_started w io raw'
      else destroyed (pjsip_error "runtime_start" status) (shim.invoke ShimCall.destroy raw').1

  -- With the lock taken: `gmv_sip_runtime_create`. The list here and below holds the configurations
  -- that it was called with.
  unfoldable pub launch :
      Surroundings shim → Bool → RuntimeConfig → List RuntimeConfig × Started shim
  unfolding with_handle
  launch w io config =
      let (status, handle) = w.create config in
      (
        config ∷ [],
        if is_zero status
            then with_handle w io handle
            else refused (pjsip_error "runtime_create" status),
      )

  unfoldable pub locked :
      Lock → List RuntimeConfig × Started shim → List RuntimeConfig × Started shim
  locked held done = ([], refused runtime_active)
  locked free done = done
  locked poisoned done = done

  unfoldable pub start :
      Surroundings shim → SipRuntimeConfig → SipRuntimeSockets → List RuntimeConfig × Started shim
  unfolding launch locked ffi_config
  start w c s = elim (do validate_sockets c s; validate c) [
    | err e ↦ ([], refused e)
    | ok timeouts ↦ locked w.lock (
        launch w w.io_thread (
          ffi_config w c (not (is_none s.udp_socket))
            (not (is_none s.tcp_listener) || not (is_none s.tls_listener)) timeouts))
  ]

  -- The variant for tests has no sockets and no socket tasks.
  unfoldable pub start_for_test :
      Surroundings shim → SipRuntimeConfig → List RuntimeConfig × Started shim
  unfolding launch locked ffi_config
  start_for_test w c = elim (validate c) [
    | err e ↦ ([], refused e)
    | ok timeouts ↦
        locked w.lock (launch w true (ffi_config w c c.enable_udp c.enable_tcp timeouts))
  ]
