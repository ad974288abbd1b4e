-- ===== src/Runtime/Sources.antt =====
-- `allow_registered_source`, `allow_recovery_source`, `remove_registered_source` and
-- `allow_incoming_invite` of src/runtime.rs: who may send to the runtime.
use gmv_pjsip.Prelude.{ℕ, Bool, not, ◌||◌, Option, none, some, ltb, ◌==◌, is_empty}
use gmv_pjsip.Error.{invalid_config, Result, ok, err, ◌>>=◌, ◌>>◌, fail_if}
use gmv_pjsip.Text.{Text}
use gmv_pjsip.Runtime.Types.{SipRegisteredSource, SipRecoverySource, SipIncomingInviteAllow}
use gmv_pjsip.Runtime.Ffi.{
  Shim, ShimCall, RegisteredSource, RecoverySource, IncomingInviteAllow, transport_id, string_view,
  or_empty,
}
use gmv_pjsip.Runtime.State.{SipRuntime, invoke, checked, u32_max, as_millis, duration_millis}
use gmv_pjsip.Runtime.Checks.{has_nul, is_tls, valid_registration_order}

-- The checks of `allow_registered_source`.
unfoldable pub check_registered : Bool → SipRegisteredSource → Result (Unit {0})
check_registered stopped s = do
  fail_if stopped (invalid_config "cannot update registered SIP source after runtime stop")
  fail_if
      (is_tls s.protocol
        || is_empty s.device_id
        || is_empty s.remote_address
        || has_nul s.device_id
        || has_nul s.remote_address
        || not (valid_registration_order s.registration_call_id s.registration_cseq))
      (invalid_config "registered SIP source requires UDP/TCP, device_id, and remote_address")

-- `registration_cseq.unwrap_or_default()`
abbrev pub or_default : Option ℕ → ℕ
or_default none = 0
or_default (some cseq) = cseq

unfoldable pub registered_request : SipRegisteredSource → RegisteredSource
registered_request s = record {
  transport = transport_id s.protocol;
  device_id = string_view s.device_id;
  remote_address = string_view s.remote_address;
  registration_call_id = string_view (or_empty s.registration_call_id);
  registration_cseq = or_default s.registration_cseq;
}

-- The checks of `allow_recovery_source`.
unfoldable pub check_recovery : Bool → SipRecoverySource → Result (Unit {0})
check_recovery stopped s = do
  fail_if stopped (invalid_config "cannot update recovery SIP source after runtime stop")
  fail_if
      (is_tls s.protocol
        || is_empty s.device_id
        || is_empty s.remote_address
        || has_nul s.device_id
        || has_nul s.remote_address
        || not (valid_registration_order s.registration_call_id s.registration_cseq)
        || as_millis s.ttl == 0
        || ltb u32_max (as_millis s.ttl))
      (invalid_config
        "recovery SIP source requires UDP/TCP, device_id, remote_address, and bounded ttl")

unfoldable pub recovery_request : SipRecoverySource → RecoverySource
recovery_request s = record {
  transport = transport_id s.protocol;
  device_id = string_view s.device_id;
  remote_address = string_view s.remote_address;
  registration_call_id = string_view (or_empty s.registration_call_id);
  registration_cseq = or_default s.registration_cseq;
  ttl_ms = as_millis s.ttl;
}

-- The checks of `allow_incoming_invite`; the result is the time to live in milliseconds.
unfoldable pub check_allow : Bool → SipIncomingInviteAllow → Result ℕ
check_allow stopped a = do
  fail_if stopped (invalid_config "cannot allow incoming SIP INVITE after runtime stop")
  fail_if
      (is_tls a.protocol
        || is_empty a.target_id
        || is_empty a.source_id
        || is_empty a.remote_address
        || has_nul a.target_id
        || has_nul a.source_id
        || has_nul a.remote_address)
      (invalid_config
        "incoming INVITE allow requires UDP/TCP, target_id, source_id, and remote_address")
  ttl_ms ← duration_millis "incoming_invite_allow_ttl" a.ttl
  fail_if (ttl_ms == 0) (invalid_config "incoming INVITE allow ttl must be greater than zero")
  ok ttl_ms

unfoldable pub allow_request : ℕ → SipIncomingInviteAllow → IncomingInviteAllow
allow_request ttl_ms a = record {
  transport = transport_id a.protocol;
  target_id = string_view a.target_id;
  source_id = string_view a.source_id;
  remote_address = string_view a.remote_address;
  ttl_ms = ttl_ms;
}

-- The check of `remove_registered_source`, which looks at the identifier alone.
unfoldable pub check_device_id : Text → Result (Unit {0})
check_device_id device_id =
    fail_if (is_empty device_id || has_nul device_id) (invalid_config "device_id must be non-empty")

module _ {shim : Shim} where
  unfoldable pub allow_registered_source :
      SipRuntime shim → SipRegisteredSource → Result (Unit {0}) × SipRuntime shim
  unfolding check_registered registered_request
  allow_registered_source rt s = checked (check_registered rt.stopped s) rt (
      invoke "allow_registered_source" (ShimCall.allow_registered_source (registered_request s)) rt)

  unfoldable pub allow_recovery_source :
      SipRuntime shim → SipRecoverySource → Result (Unit {0}) × SipRuntime shim
  unfolding check_recovery recovery_request
  allow_recovery_source rt s =
      checked (check_recovery rt.stopped s) rt
        (invoke "allow_recovery_source" (ShimCall.allow_recovery_source (recovery_request s)) rt)

  unfoldable pub remove_registered_source :
      SipRuntime shim → Text → Result (Unit {0}) × SipRuntime shim
  unfolding check_device_id
  remove_registered_source rt device_id = checked (check_device_id device_id) rt (
      invoke "remove_registered_source" (ShimCall.remove_registered_source (string_view device_id))
        rt)

  unfoldable pub allow_incoming_invite :
      SipRuntime shim → SipIncomingInviteAllow → Result (Unit {0}) × SipRuntime shim
  unfolding check_allow allow_request
  allow_incoming_invite rt a = elim (check_allow rt.stopped a) [
    | err e ↦ (err e, rt)
    | ok ttl_ms ↦
        invoke "allow_incoming_invite" (ShimCall.allow_incoming_invite (allow_request ttl_ms a)) rt
  ]
