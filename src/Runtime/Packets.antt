-- ===== src/Runtime/Packets.antt =====
-- `receive_packet`, `complete_send`, `close_transport` and `complete_auth_lookup` of src/runtime.rs:
-- what the socket tasks and the credential lookup report to the shim.
use gmv_pjsip.Prelude.{ℕ, ◌-◌, ◌^◌, Bool, not, ◌&&◌, ◌||◌, List, ltb, ◌==◌, is_empty, if◌then◌else◌}
use gmv_pjsip.Prelude.Int.{ℤ, pos, abs_i32, max_one, negate}
use gmv_pjsip.Error.{invalid_config, Result, ok, err, ◌>>◌, fail_if}
use gmv_pjsip.Transport.{SipTransportProtocol, SocketAddr, is_ipv4, port_of}
use gmv_pjsip.Transport.Display.{ip_text}
use gmv_pjsip.Runtime.Types.{SipAuthLookupResult, credential, bypass, reject, not_found}
use gmv_pjsip.Runtime.Ffi.{
  Shim, ShimCall, AuthLookupCompletion, ReceivedPacket, transport_id, string_view, bytes_view,
  empty_view,
}
use gmv_pjsip.Runtime.State.{SipRuntime, SendResult, sent, failed, invoke, checked}
use gmv_pjsip.Runtime.Checks.{is_tls, is_tcp}

-- The checks of `receive_packet`.
unfoldable pub check_packet :
    Bool → ℕ → SipTransportProtocol → SocketAddr → SocketAddr → List ℕ → Result (Unit {0})
check_packet stopped association_id protocol local_addr remote_addr payload = do
  fail_if stopped (invalid_config "cannot receive packet after runtime stop")
  fail_if (is_empty payload) (invalid_config "received SIP packet must not be empty")
  fail_if (not (is_ipv4 local_addr) || not (is_ipv4 remote_addr))
      (invalid_config "SIP runtime socket adapter supports IPv4 only")
  fail_if ((is_tcp protocol || is_tls protocol) && association_id == 0)
      (invalid_config "reliable transport association_id must be non-zero")

unfoldable pub packet_request :
    ℕ → SipTransportProtocol → SocketAddr → SocketAddr → List ℕ → ReceivedPacket
packet_request association_id protocol local_addr remote_addr payload = record {
  association_id = association_id;
  transport = transport_id protocol;
  payload = bytes_view payload;
  local_address = string_view (ip_text local_addr);
  local_port = port_of local_addr;
  remote_address = string_view (ip_text remote_addr);
  remote_port = port_of remote_addr;
}

-- What `complete_send` reports: the number of bytes, or a negative status.
unfoldable pub sent_bytes_of : SendResult → Result ℤ
sent_bytes_of (sent bytes) =
    if ltb (2 ^ 63 - 1) bytes
    then err (invalid_config "sent byte count exceeds i64")
    else ok (pos bytes)
sent_bytes_of (failed status) = ok (negate (max_one (abs_i32 status)))

-- GMV_SIP_AUTH_CREDENTIAL, GMV_SIP_AUTH_BYPASS, GMV_SIP_AUTH_REJECT, GMV_SIP_AUTH_NOT_FOUND
abbrev pub lookup_outcome : SipAuthLookupResult → ℕ
lookup_outcome (credential c) = 1
lookup_outcome bypass = 2
lookup_outcome reject = 3
lookup_outcome not_found = 4

-- The checks of `complete_auth_lookup`.
unfoldable pub check_lookup : Bool → ℕ → Result (Unit {0})
check_lookup stopped lookup_id = do
  fail_if stopped (invalid_config "cannot complete auth lookup after runtime stop")
  fail_if (lookup_id == 0) (invalid_config "lookup_id must be non-zero")

abbrev without_credential : ℕ → SipAuthLookupResult → AuthLookupCompletion
without_credential lookup_id result = record {
  lookup_id = lookup_id;
  outcome = lookup_outcome result;
  credential_type = pos 0;
  algorithm_type = pos 0;
  username = empty_view;
  realm = empty_view;
  secret = empty_view;
}

module _ (shim : Shim) where
  unfoldable pub lookup_request : ℕ → SipAuthLookupResult → AuthLookupCompletion
  lookup_request lookup_id (credential c) = record {
    lookup_id = lookup_id;
    outcome = lookup_outcome (credential c);
    credential_type = shim.credential_id c.kind;
    algorithm_type = shim.algorithm_id c.algorithm;
    username = string_view c.username;
    realm = string_view c.realm;
    secret = string_view c.secret;
  }
  lookup_request lookup_id result = without_credential lookup_id result

module _ {shim : Shim} where
  unfoldable pub complete_auth_lookup :
      SipRuntime shim → ℕ → SipAuthLookupResult → Result (Unit {0}) × SipRuntime shim
  unfolding check_lookup
  complete_auth_lookup rt lookup_id result = checked (check_lookup rt.stopped lookup_id) rt (
      invoke "complete_auth_lookup"
        (ShimCall.complete_auth_lookup (lookup_request shim lookup_id result)) rt)

  unfoldable pub receive_packet :
      SipRuntime shim
      → ℕ
      → SipTransportProtocol
      → SocketAddr
      → SocketAddr
      → List ℕ
      → Result (Unit {0}) × SipRuntime shim
  unfolding check_packet packet_request
  receive_packet rt association_id protocol local_addr remote_addr payload =
      checked (check_packet rt.stopped association_id protocol local_addr remote_addr payload) rt (
        invoke "receive_packet"
          (ShimCall.receive_packet
            (packet_request association_id protocol local_addr remote_addr payload))
          rt)

  unfoldable pub complete_send :
      SipRuntime shim → ℕ → SendResult → Result (Unit {0}) × SipRuntime shim
  unfolding sent_bytes_of
  complete_send rt send_id result =
      checked
        (fail_if (rt.stopped || send_id == 0)
          (invalid_config "cannot complete an invalid or stopped send"))
        rt
        (elim (sent_bytes_of result) [
          | err e ↦ (err e, rt)
          | ok sent_bytes ↦
              invoke "complete_send"
                (ShimCall.complete_send (record { send_id = send_id; sent_bytes = sent_bytes })) rt
        ])

  unfoldable pub close_transport :
      SipRuntime shim → ℕ → SipTransportProtocol → ℤ → Result (Unit {0}) × SipRuntime shim
  close_transport rt association_id protocol status =
      checked
        (fail_if (rt.stopped || association_id == 0 || not (is_tcp protocol))
          (invalid_config "only an active TCP association can be closed"))
        rt
        (invoke "close_transport"
          (ShimCall.close_transport association_id (transport_id protocol) status) rt)
