-- ===== src/Runtime/Start/Configured.antt =====
-- What the configuration for the C shim has to say of the one that `start` of src/runtime.rs was given,
-- and of its sockets.
use gmv_pjsip.Prelude.{
  ℕ, suc, ◌*◌, ◌≤◌, ◌<◌, ◌≡◌, ◌≢◌, ◌⊎◌, ◌↔◌, refl, true, not, ◌||◌, [], ◌∷◌, ◌++◌, none, some,
  arith, if◌then◌else◌,
}
use gmv_pjsip.Text.{print_uint}
use gmv_pjsip.Runtime.Types.{SipRuntimeConfig, SipRuntimeSockets}
use gmv_pjsip.Runtime.Ffi.{Shim}
use gmv_pjsip.Runtime.State.{as_millis}
use gmv_pjsip.Runtime.Checks.{is_none}
use gmv_pjsip.Runtime.Requests.{Shows}
use gmv_pjsip.Runtime.Start.{RuntimeConfig, Surroundings, ffi_config, address_text}

-- The whole milliseconds of a duration in nanoseconds.
abbrev pub InMillis : ℕ → ℕ → Type 0
InMillis duration ms = (ms * 1000000 ≤ duration) × (duration < suc ms * 1000000)

module _ {shim : Shim} where
  pub record IsConfigured (w : Surroundings shim) (c : SipRuntimeConfig) (s : SipRuntimeSockets)
      (r : RuntimeConfig) : Type 0 where
    pub address :
        (a b d e : ℕ)
        → c.advertised_address ≡ a ∷ b ∷ d ∷ e ∷ []
        → Shows
            (print_uint a
              ++ (b'.' ∷ (print_uint b ++ (b'.' ∷ (print_uint d ++ (b'.' ∷ print_uint e))))))
            r.bind_address
    pub port : r.port ≡ c.port
    -- A TLS listener is served as TCP.
    pub udp : (r.enable_udp ≡ true) ↔ (s.udp_socket ≢ none)
    pub tcp : (r.enable_tcp ≡ true) ↔ ((s.tcp_listener ≢ none) ⊎ (s.tls_listener ≢ none))
    pub async : r.async_count ≡ c.async_count
    pub poll : InMillis c.poll_timeout r.poll_timeout_ms
    pub realm : Shows c.auth_realm r.auth_realm
    pub algorithm : r.auth_algorithm_type ≡ shim.algorithm_id c.auth_algorithm
    pub pending : r.max_pending_auth ≡ c.max_pending_auth
    pub lookup : InMillis c.auth_lookup_timeout r.auth_lookup_timeout_ms
    pub agent : Shows c.user_agent r.user_agent
    pub log : r.log_level ≡ (if w.tracing then some 5 else none)

  -- The configuration that `start` hands to the shim.
  abbrev pub start_config : Surroundings shim → SipRuntimeConfig → SipRuntimeSockets → RuntimeConfig
  start_config w c s =
      ffi_config w c (not (is_none s.udp_socket))
        (not (is_none s.tcp_listener) || not (is_none s.tls_listener))
        (as_millis c.poll_timeout, as_millis c.auth_lookup_timeout)

  pub start_config-IsConfigured :
      (w : Surroundings shim) (c : SipRuntimeConfig) (s : SipRuntimeSockets)
      → IsConfigured w c s (start_config w c s)
  unfolding ffi_config address_text
  start_config-IsConfigured w c s = record {
    address = λ a b d e z. rw z refl;
    port = refl;
    udp = ground arith;
    tcp = ground arith;
    async = refl;
    poll = omega arith;
    realm = refl;
    algorithm = refl;
    pending = refl;
    lookup = omega arith;
    agent = refl;
    log = refl;
  }
