-- ===== src/Runtime/Copies.antt =====
-- The C structures that the shim hands to the callbacks of src/runtime.rs, and the functions that copy
-- them: `copy_event`, `copy_dialog_snapshot`, `copy_transport`, `copy_socket_addr`,
-- `copy_string_view` and `copy_bytes_view`.
use gmv_pjsip.Prelude.{ℕ, List, [], Option, none, some, leb, ◌==◌, if◌then◌else◌, is_empty}
use gmv_pjsip.Prelude.Int.{ℤ, pos, negsuc}
use gmv_pjsip.Prelude.Options.{◌>>=◌}
use gmv_pjsip.Text.{Text, from_utf8_lossy, lines}
use gmv_pjsip.Transport.{SipTransportProtocol, SocketAddr, udp, tcp}
use gmv_pjsip.Transport.Parse.{parse_socket_addr, parse_ip}
use gmv_pjsip.Runtime.Types.{
  SipDialogSnapshot, SipRuntimeEvent, SipRuntimeEventKind, SipTransmit, request_received,
  response_sent, runtime_fault, auth_lookup_required, registered, unregistered, auth_rejected,
  outbound_response, incoming_invite, unknown,
}
use gmv_pjsip.Runtime.Ffi.{StringView, null, view}

-- `gmv_sip_event_t`
pub record SipEvent : Type 0 where
  pub size : ℕ
  pub version : ℕ
  pub event_type : ℤ
  pub transport : ℤ
  pub status_code : ℤ
  pub pj_status : ℤ
  pub method : StringView
  pub event_id : ℕ
  pub cseq : ℕ
  pub call_id : StringView
  pub content_type : StringView
  pub body : StringView
  pub local_address : StringView
  pub remote_address : StringView
  pub lookup_id : ℕ
  pub device_id : StringView
  pub realm : StringView
  pub expires_seconds : ℤ
  pub contact : StringView
  pub user_agent : StringView
  pub gb_version : StringView
  pub operation_id : ℕ
  pub association_id : ℕ
  pub from_header : StringView
  pub to_header : StringView
  pub subject : StringView
  pub event : StringView
  pub subscription_state : StringView
  pub dialog_local_cseq : ℕ
  pub dialog_local_uri : StringView
  pub dialog_remote_uri : StringView
  pub dialog_local_tag : StringView
  pub dialog_remote_tag : StringView
  pub dialog_remote_target : StringView
  pub dialog_route_set : StringView

-- `gmv_sip_send_packet_t`
pub record SendPacket : Type 0 where
  pub size : ℕ
  pub version : ℕ
  pub send_id : ℕ
  pub transport_id : ℕ
  pub association_id : ℕ
  pub transport : ℤ
  pub payload : StringView
  pub local_address : StringView
  pub local_port : ℕ
  pub remote_address : StringView
  pub remote_port : ℕ

abbrev pub abi_version : ℕ
abi_version = 13

unfoldable pub copy_string_view : StringView → Option Text
copy_string_view null = none
copy_string_view (view bytes) = if is_empty bytes then none else some (from_utf8_lossy bytes)

unfoldable pub copy_bytes_view : StringView → List ℕ
copy_bytes_view null = []
copy_bytes_view (view bytes) = bytes

-- TRANSPORT_UDP and TRANSPORT_TCP
unfoldable pub copy_transport : ℤ → Option SipTransportProtocol
copy_transport (negsuc n) = none
copy_transport (pos n) = if n == 1 then some udp else if n == 2 then some tcp else none

unfoldable pub copy_socket_addr : StringView → ℕ → Option SocketAddr
unfolding copy_string_view
copy_socket_addr address port = do ip ← copy_string_view address; parse_ip ip port

-- `copy_string_view(address).and_then(|value| value.parse().ok())`
unfoldable pub copy_address : StringView → Option SocketAddr
unfolding copy_string_view
copy_address address = do value ← copy_string_view address; parse_socket_addr value

-- `(number != 0).then_some(number)`
abbrev pub non_zero : ℕ → Option ℕ
non_zero n = if n == 0 then none else some n

-- The values EVENT_... of the shim.
unfoldable pub event_kind : ℤ → SipRuntimeEventKind
event_kind (negsuc n) = unknown (negsuc n)
event_kind (pos n) =
    if n == 1
    then request_received
    else if n == 2
    then response_sent
    else if n == 3
    then runtime_fault
    else if n == 4
    then auth_lookup_required
    else if n == 5
    then registered
    else if n == 7
    then unregistered
    else if n == 6
    then auth_rejected
    else if n == 8
    then outbound_response
    else if n == 9
    then incoming_invite
    else unknown (pos n)

-- `u16::try_from(status_code).ok().filter(|status| *status != 0)`
unfoldable pub copy_status : ℤ → Option ℕ
copy_status (negsuc n) = none
copy_status (pos n) = if leb 65536 n then none else non_zero n

-- `u32::try_from(expires_seconds).ok()`
unfoldable pub copy_expires : ℤ → Option ℕ
copy_expires (negsuc n) = none
copy_expires (pos n) = some n

route_lines : Option Text → List Text
route_lines none = []
route_lines (some routes) = lines routes

unfoldable pub copy_dialog_snapshot : SipEvent → Option SipDialogSnapshot
unfolding copy_string_view copy_transport copy_address route_lines
copy_dialog_snapshot e = if e.dialog_local_cseq == 0 then none else do
  call_id ← copy_string_view e.call_id
  local_uri ← copy_string_view e.dialog_local_uri
  remote_uri ← copy_string_view e.dialog_remote_uri
  local_tag ← copy_string_view e.dialog_local_tag
  remote_tag ← copy_string_view e.dialog_remote_tag
  remote_target ← copy_string_view e.dialog_remote_target
  protocol ← copy_transport e.transport
  local_addr ← copy_address e.local_address
  remote_addr ← copy_address e.remote_address
  some (record {
    call_id = call_id;
    local_uri = local_uri;
    remote_uri = remote_uri;
    local_tag = local_tag;
    remote_tag = remote_tag;
    local_cseq = e.dialog_local_cseq;
    remote_target = remote_target;
    route_set = route_lines (copy_string_view e.dialog_route_set);
    protocol = protocol;
    association_id = e.association_id;
    local_addr = local_addr;
    remote_addr = remote_addr;
  })

unfoldable pub copy_event : SipEvent → SipRuntimeEvent
unfolding copy_string_view copy_bytes_view copy_dialog_snapshot
copy_event e = record {
  event_id = e.event_id;
  kind = event_kind e.event_type;
  protocol = copy_transport e.transport;
  status_code = copy_status e.status_code;
  pj_status = e.pj_status;
  method = copy_string_view e.method;
  call_id = copy_string_view e.call_id;
  cseq = non_zero e.cseq;
  content_type = copy_string_view e.content_type;
  body = copy_bytes_view e.body;
  local_addr = copy_address e.local_address;
  remote_addr = copy_address e.remote_address;
  lookup_id = non_zero e.lookup_id;
  device_id = copy_string_view e.device_id;
  realm = copy_string_view e.realm;
  expires_seconds = copy_expires e.expires_seconds;
  contact = copy_string_view e.contact;
  user_agent = copy_string_view e.user_agent;
  gb_version = copy_string_view e.gb_version;
  operation_id = non_zero e.operation_id;
  association_id = non_zero e.association_id;
  from_header = copy_string_view e.from_header;
  to_header = copy_string_view e.to_header;
  subject = copy_string_view e.subject;
  event = copy_string_view e.event;
  subscription_state = copy_string_view e.subscription_state;
  dialog_snapshot = copy_dialog_snapshot e;
}

-- The transmit that a packet stands for.
unfoldable pub copy_packet : SendPacket → Option SipTransmit
unfolding copy_transport copy_socket_addr copy_bytes_view
copy_packet p = do
  protocol ← copy_transport p.transport
  local_addr ← copy_socket_addr p.local_address p.local_port
  remote_addr ← copy_socket_addr p.remote_address p.remote_port
  some (record {
    send_id = p.send_id;
    transport_id = p.transport_id;
    association_id = p.association_id;
    protocol = protocol;
    payload = copy_bytes_view p.payload;
    local_addr = local_addr;
    remote_addr = remote_addr;
  })
