-- ===== src/Tests/Callbacks.antt =====
-- A packet and an event of the shim in the callbacks of src/runtime.rs.
use gmv_pjsip.Prelude.{◌≡◌, refl, true, false, [], ◌∷◌, some, arith}
use gmv_pjsip.Prelude.Int.{pos}
use gmv_pjsip.Error.{ok}
use gmv_pjsip.Text.{codes, from_utf8_lossy, as_bytes}
use gmv_pjsip.Transport.{udp, v4}
use gmv_pjsip.Transport.Parse.{parse_socket_addr}
use gmv_pjsip.Runtime.Types.{SipTransmit, SipDialogSnapshot}
use gmv_pjsip.Runtime.Ffi.{null, string_view}
use gmv_pjsip.Runtime.Dialog.{check_restored}
use gmv_pjsip.Runtime.Copies.{SipEvent, abi_version, copy_dialog_snapshot}
use gmv_pjsip.Runtime.Callbacks.{TransmitState, runtime_send_callback}
use gmv_pjsip.Runtime.Callbacks.Delivery.{packet_of, runtime_send_callback-packet_of}
use gmv_pjsip.Runtime.Callbacks.Snapshot.{clean, bye_within, check_restored-copy_dialog_snapshot}

abbrev answer : SipTransmit
answer = record {
  send_id = 3;
  transport_id = 1;
  association_id = 0;
  protocol = udp;
  payload = codes "SIP/2.0 200 OK";
  local_addr = v4 10 0 0 1 5060;
  remote_addr = v4 192 168 1 64 5061;
}

abbrev channel : TransmitState
channel = record { queue = []; capacity = 2; receiving = true }

runtime_send_callback-packet_of_example :
    runtime_send_callback 400 96 (some (packet_of 96 answer)) (some channel)
    ≡ (pos 0, some (record channel { queue = answer ∷ [] }))
runtime_send_callback-packet_of_example =
    runtime_send_callback-packet_of 400 96 96 answer channel (omega arith)
      (λ e. absurd (ground arith)) (omega arith, omega arith, omega arith, omega arith)
      (omega arith, omega arith, omega arith, omega arith) refl (omega arith)

abbrev established : SipEvent
established = record {
  size = 400;
  version = abi_version;
  event_type = pos 8;
  transport = pos 1;
  status_code = pos 200;
  pj_status = pos 0;
  method = string_view (codes "INVITE");
  event_id = 1;
  cseq = 7;
  call_id = string_view (codes "c1");
  content_type = null;
  body = null;
  local_address = string_view (codes "10.0.0.1:5060");
  remote_address = string_view (codes "10.0.0.7:5060");
  lookup_id = 0;
  device_id = null;
  realm = null;
  expires_seconds = pos 0;
  contact = null;
  user_agent = null;
  gb_version = null;
  operation_id = 9;
  association_id = 0;
  from_header = null;
  to_header = null;
  subject = null;
  event = null;
  subscription_state = null;
  dialog_local_cseq = 7;
  dialog_local_uri = string_view (codes "sip:a@h");
  dialog_remote_uri = string_view (codes "sip:b@h");
  dialog_local_tag = string_view (codes "t1");
  dialog_remote_tag = string_view (codes "t2");
  dialog_remote_target = string_view (codes "sip:b@10.0.0.7");
  dialog_route_set = null;
}

abbrev snapshot : SipDialogSnapshot
snapshot = record {
  call_id = codes "c1";
  local_uri = codes "sip:a@h";
  remote_uri = codes "sip:b@h";
  local_tag = codes "t1";
  remote_tag = codes "t2";
  local_cseq = 7;
  remote_target = codes "sip:b@10.0.0.7";
  route_set = [];
  protocol = udp;
  association_id = 0;
  local_addr = v4 10 0 0 1 5060;
  remote_addr = v4 10 0 0 7 5060;
}

established_snapshot : copy_dialog_snapshot established ≡ some snapshot
unfolding copy_dialog_snapshot as_bytes parse_socket_addr from_utf8_lossy
established_snapshot = refl

snapshot_clean : clean snapshot ≡ true
unfolding clean as_bytes
snapshot_clean = refl

check_restored-copy_dialog_snapshot_example : check_restored false (bye_within snapshot 12) ≡ ok tt
check_restored-copy_dialog_snapshot_example =
    check_restored-copy_dialog_snapshot established snapshot 12 established_snapshot snapshot_clean
      (omega arith) tt (λ e. absurd (ground arith)) (λ e. absurd (ground arith))
