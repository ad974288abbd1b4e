-- ===== src/Runtime/Boundary/Sources.antt =====
-- The sources and permissions that pass the checks are well formed.
use gmv_pjsip.Prelude.{ℕ, ◌≡◌, Bool, arith}
use gmv_pjsip.Error.{ok}
use gmv_pjsip.Text.{Text, as_bytes, as_bytes-is_empty}
use gmv_pjsip.Runtime.Types.{SipRegisteredSource, SipRecoverySource, SipIncomingInviteAllow}
use gmv_pjsip.Runtime.Ffi.{or_empty, string_view}
use gmv_pjsip.Runtime.State.{duration_millis}
use gmv_pjsip.Runtime.Checks.{valid_registration_order}
use gmv_pjsip.Runtime.Sources.{
  check_registered, registered_request, check_recovery, recovery_request, check_allow,
  allow_request, check_device_id,
}
use gmv_pjsip.Runtime.Boundary.{RegisteredOk, RecoveryOk, AllowOk, Filled, NulFree}

pub registered_request-RegisteredOk :
    (stopped : Bool) (s : SipRegisteredSource)
    → check_registered stopped s ≡ ok tt
    → RegisteredOk (registered_request s)
unfolding check_registered registered_request valid_registration_order as_bytes
registered_request-RegisteredOk stopped s h = ground (
  arith,
  as_bytes-is_empty s.device_id,
  as_bytes-is_empty s.remote_address,
  as_bytes-is_empty (or_empty s.registration_call_id),
)

pub recovery_request-RecoveryOk :
    (stopped : Bool) (s : SipRecoverySource)
    → check_recovery stopped s ≡ ok tt
    → RecoveryOk (recovery_request s)
unfolding check_recovery recovery_request valid_registration_order as_bytes
recovery_request-RecoveryOk stopped s h = ground (
  arith,
  as_bytes-is_empty s.device_id,
  as_bytes-is_empty s.remote_address,
  as_bytes-is_empty (or_empty s.registration_call_id),
)

pub allow_request-AllowOk :
    (stopped : Bool) (a : SipIncomingInviteAllow) (ttl_ms : ℕ)
    → check_allow stopped a ≡ ok ttl_ms
    → AllowOk (allow_request ttl_ms a)
unfolding check_allow allow_request duration_millis
allow_request-AllowOk stopped a ttl_ms h = ground (
  arith,
  as_bytes-is_empty a.target_id,
  as_bytes-is_empty a.source_id,
  as_bytes-is_empty a.remote_address,
)

pub check_device_id-Filled :
    (device_id : Text)
    → check_device_id device_id ≡ ok tt
    → Filled (string_view device_id) × NulFree (string_view device_id)
unfolding check_device_id
check_device_id-Filled device_id h = ground (arith, as_bytes-is_empty device_id)
