-- ===== src/Runtime/Ffi.antt =====
-- What crosses the boundary between src/runtime.rs and the C shim (gmv_pjsip_sys/shim.h): string
-- views, the structures of the requests, and the shim itself as a parameter. The first two fields
-- of each structure, its size and GMV_SIP_ABI_VERSION, are constants and left out.
use gmv_pjsip.Prelude.{ℕ, List, [], Option, none, some}
use gmv_pjsip.Prelude.Int.{ℤ}
use gmv_pjsip.Text.{Text, as_bytes}
use gmv_pjsip.Transport.{SipTransportProtocol, udp, tcp, tls}
use gmv_pjsip.Auth.{AuthAlgorithm, CredentialKind}
use gmv_pjsip.Runtime.Types.{SipDialogMethod, bye, info}

-- `gmv_sip_string_view_t`: a null pointer, or the bytes that it points to.
pub data StringView : Type 0 where
  null : StringView
  view : List ℕ → StringView

abbrev pub empty_view : StringView
empty_view = null

abbrev pub string_view : Text → StringView
string_view value = view (as_bytes value)

abbrev pub bytes_view : List ℕ → StringView
bytes_view value = view value

-- `value.as_deref().map(string_view).unwrap_or_else(empty_view)`
abbrev pub optional_view : Option Text → StringView
optional_view none = empty_view
optional_view (some value) = string_view value

-- `value.as_deref().unwrap_or_default()`
abbrev pub or_empty : Option Text → Text
or_empty none = []
or_empty (some value) = value

-- GMV_SIP_TRANSPORT_UDP and GMV_SIP_TRANSPORT_TCP
abbrev pub transport_id : SipTransportProtocol → ℕ
transport_id udp = 1
transport_id tcp = 2
transport_id tls = 0

-- GMV_SIP_DIALOG_BYE and GMV_SIP_DIALOG_INFO
abbrev pub dialog_method_id : SipDialogMethod → ℕ
dialog_method_id bye = 1
dialog_method_id info = 2

pub record AuthLookupCompletion : Type 0 where
  pub lookup_id : ℕ
  pub outcome : ℕ
  pub credential_type : ℤ
  pub algorithm_type : ℤ
  pub username : StringView
  pub realm : StringView
  pub secret : StringView

pub record ReceivedPacket : Type 0 where
  pub association_id : ℕ
  pub transport : ℕ
  pub payload : StringView
  pub local_address : StringView
  pub local_port : ℕ
  pub remote_address : StringView
  pub remote_port : ℕ

pub record SendCompletion : Type 0 where
  pub send_id : ℕ
  pub sent_bytes : ℤ

pub record RegisteredSource : Type 0 where
  pub transport : ℕ
  pub device_id : StringView
  pub remote_address : StringView
  pub registration_call_id : StringView
  pub registration_cseq : ℕ

pub record RecoverySource : Type 0 where
  pub transport : ℕ
  pub device_id : StringView
  pub remote_address : StringView
  pub registration_call_id : StringView
  pub registration_cseq : ℕ
  pub ttl_ms : ℕ

pub record IncomingInviteAllow : Type 0 where
  pub transport : ℕ
  pub target_id : StringView
  pub source_id : StringView
  pub remote_address : StringView
  pub ttl_ms : ℕ

pub record OutboundMessage : Type 0 where
  pub operation_id : ℕ
  pub association_id : ℕ
  pub transport : ℕ
  pub cseq : ℕ
  pub target_uri : StringView
  pub to_uri : StringView
  pub from_uri : StringView
  pub content_type : StringView
  pub body : StringView

pub record OutboundInvite : Type 0 where
  pub operation_id : ℕ
  pub association_id : ℕ
  pub transport : ℕ
  pub local_cseq : ℕ
  pub call_id : StringView
  pub local_tag : StringView
  pub target_uri : StringView
  pub to_uri : StringView
  pub from_uri : StringView
  pub contact_uri : StringView
  pub subject : StringView
  pub sdp : StringView

pub record DialogRequest : Type 0 where
  pub operation_id : ℕ
  pub method : ℕ
  pub call_id : StringView
  pub content_type : StringView
  pub body : StringView

pub record RestoredDialogRequest : Type 0 where
  pub operation_id : ℕ
  pub method : ℕ
  pub association_id : ℕ
  pub transport : ℕ
  pub local_cseq : ℕ
  pub call_id : StringView
  pub local_uri : StringView
  pub remote_uri : StringView
  pub local_tag : StringView
  pub remote_tag : StringView
  pub remote_target : StringView
  pub route_set : StringView
  pub remote_address : StringView
  pub remote_port : ℕ
  pub content_type : StringView
  pub body : StringView

pub record InviteResponse : Type 0 where
  pub status_code : ℕ
  pub call_id : StringView
  pub reason : StringView
  pub content_type : StringView
  pub body : StringView

pub record OutboundSubscribe : Type 0 where
  pub operation_id : ℕ
  pub association_id : ℕ
  pub transport : ℕ
  pub local_cseq : ℕ
  pub target_uri : StringView
  pub from_uri : StringView
  pub contact_uri : StringView
  pub call_id : StringView
  pub event : StringView
  pub expires : ℕ
  pub content_type : StringView
  pub body : StringView

-- The calls of `gmv_sip_runtime_...` on a runtime that was created.
pub data ShimCall : Type 0 where
  start stop poll destroy : ShimCall
  complete_auth_lookup : AuthLookupCompletion → ShimCall
  receive_packet : ReceivedPacket → ShimCall
  complete_send : SendCompletion → ShimCall
  close_transport : ℕ → ℕ → ℤ → ShimCall
  allow_registered_source : RegisteredSource → ShimCall
  allow_recovery_source : RecoverySource → ShimCall
  remove_registered_source : StringView → ShimCall
  allow_incoming_invite : IncomingInviteAllow → ShimCall
  send_message : OutboundMessage → ShimCall
  send_invite : OutboundInvite → ShimCall
  send_dialog_request : DialogRequest → ShimCall
  send_restored_dialog_request : RestoredDialogRequest → ShimCall
  respond_invite : InviteResponse → ShimCall
  send_subscribe : OutboundSubscribe → ShimCall

-- The shim: its state, the status and the state after a call (zero is success), and the numbers by
-- which PJSIP names algorithms and kinds of credentials.
pub record Shim : Type 1 where
  pub State : Type 0
  pub invoke : ShimCall → State → ℤ × State
  pub algorithm_id : AuthAlgorithm → ℤ
  pub credential_id : CredentialKind → ℤ
