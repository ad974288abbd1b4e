-- ===== src/Runtime/Boundary/Packets.antt =====
-- Packets, completions and closed transports that pass the checks are well formed.
use gmv_pjsip.Prelude.{ℕ, ◌≡◌, ◌<◌, ◌^◌, Bool, List, arith}
use gmv_pjsip.Prelude.Int.{ℤ, pos, negsuc}
use gmv_pjsip.Error.{ok}
use gmv_pjsip.Transport.{SipTransportProtocol, SocketAddr}
use gmv_pjsip.Runtime.Types.{SipAuthLookupResult, credential}
use gmv_pjsip.Runtime.Ffi.{Shim, ShimCall}
use gmv_pjsip.Runtime.State.{SendResult, sent, failed}
use gmv_pjsip.Runtime.Packets.{
  check_packet, packet_request, sent_bytes_of, check_lookup, lookup_request,
}
use gmv_pjsip.Runtime.Boundary.{PacketOk, IsSentBytes, WellFormed}

pub packet_request-PacketOk :
    (stopped : Bool) (association_id : ℕ) (protocol : SipTransportProtocol)
    (local_addr remote_addr : SocketAddr) (payload : List ℕ)
    → check_packet stopped association_id protocol local_addr remote_addr payload ≡ ok tt
    → PacketOk (packet_request association_id protocol local_addr remote_addr payload)
unfolding check_packet packet_request
packet_request-PacketOk stopped association_id protocol local_addr remote_addr payload h =
    ground arith

-- A status is an `i32`.
abbrev pub IsStatus : SendResult → Type 0
IsStatus (sent bytes) = Unit
IsStatus (failed (pos n)) = n < 2 ^ 31
IsStatus (failed (negsuc n)) = n < 2 ^ 31

pub sent_bytes_of-IsSentBytes :
    (result : SendResult) (bytes : ℤ)
    → IsStatus result
    → sent_bytes_of result ≡ ok bytes
    → IsSentBytes bytes
unfolding sent_bytes_of
sent_bytes_of-IsSentBytes (sent n) bytes s h = ground arith
sent_bytes_of-IsSentBytes (failed (pos n)) bytes s h = ground arith
sent_bytes_of-IsSentBytes (failed (negsuc n)) bytes s h = ground arith

pub lookup_request-WellFormed :
    (shim : Shim) (stopped : Bool) (lookup_id : ℕ) (result : SipAuthLookupResult)
    → check_lookup stopped lookup_id ≡ ok tt
    → WellFormed (ShimCall.complete_auth_lookup (lookup_request shim lookup_id result))
unfolding check_lookup lookup_request
lookup_request-WellFormed shim stopped lookup_id (credential c) h = ground arith
lookup_request-WellFormed shim stopped lookup_id _ h = ground arith
