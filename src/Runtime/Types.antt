-- ===== src/Runtime/Types.antt =====
-- The requests, responses and settings that the crate's users hand to the runtime
-- (src/runtime.rs). A `Duration` is its number of nanoseconds.
use gmv_pjsip.Prelude.{ℕ, Bool, List, Option}
use gmv_pjsip.Prelude.Int.{ℤ}
use gmv_pjsip.Text.{Text}
use gmv_pjsip.Transport.{SipTransportProtocol, SocketAddr}
use gmv_pjsip.Auth.{AuthAlgorithm, AuthCredential}

pub record SipTlsConfig : Type 0 where
  pub cert_path : Text
  pub key_path : Text
  pub ca_path : Option Text
  pub require_client_cert : Bool

-- `advertised_address` is the four bytes of the address.
pub record SipRuntimeConfig : Type 0 where
  pub advertised_address : List ℕ
  pub port : ℕ
  pub enable_udp : Bool
  pub enable_tcp : Bool
  pub async_count : ℕ
  pub poll_timeout : ℕ
  pub auth_realm : Text
  pub auth_algorithm : AuthAlgorithm
  pub max_pending_auth : ℕ
  pub auth_lookup_timeout : ℕ
  pub io_queue_capacity : ℕ
  pub user_agent : Text
  pub tls_config : Option SipTlsConfig

-- A socket or a listener is the address it is bound to.
-- The sockets `udp`, `tcp` and `tls` of the source, each by its local address.
pub record SipRuntimeSockets : Type 0 where
  pub udp_socket : Option SocketAddr
  pub tcp_listener : Option SocketAddr
  pub tls_listener : Option SocketAddr

pub record SipRegisteredSource : Type 0 where
  pub device_id : Text
  pub remote_address : Text
  pub protocol : SipTransportProtocol
  pub registration_call_id : Option Text
  pub registration_cseq : Option ℕ

pub record SipRecoverySource : Type 0 where
  pub device_id : Text
  pub remote_address : Text
  pub protocol : SipTransportProtocol
  pub registration_call_id : Option Text
  pub registration_cseq : Option ℕ
  pub ttl : ℕ

pub record SipIncomingInviteAllow : Type 0 where
  pub target_id : Text
  pub source_id : Text
  pub remote_address : Text
  pub protocol : SipTransportProtocol
  pub ttl : ℕ

pub data SipAuthLookupResult : Type 0 where
  credential : AuthCredential → SipAuthLookupResult
  bypass reject not_found : SipAuthLookupResult

pub record SipOutboundMessage : Type 0 where
  pub operation_id : ℕ
  pub association_id : ℕ
  pub protocol : SipTransportProtocol
  pub target_uri : Text
  pub to_uri : Option Text
  pub from_uri : Text
  pub content_type : Text
  pub body : List ℕ

pub record SipInviteIdentity : Type 0 where
  pub call_id : Text
  pub local_tag : Text
  pub local_cseq : ℕ

pub record SipOutboundInvite : Type 0 where
  pub operation_id : ℕ
  pub association_id : ℕ
  pub protocol : SipTransportProtocol
  pub identity : SipInviteIdentity
  pub target_uri : Text
  pub from_uri : Text
  pub contact_uri : Text
  pub subject : Option Text
  pub sdp : Text

pub record SipOutboundSubscribe : Type 0 where
  pub operation_id : ℕ
  pub association_id : ℕ
  pub protocol : SipTransportProtocol
  pub target_uri : Text
  pub from_uri : Text
  pub contact_uri : Text
  pub call_id : Option Text
  pub event : Text
  pub expires : ℕ
  pub content_type : Text
  pub body : List ℕ

pub data SipDialogMethod : Type 0 where
  bye info : SipDialogMethod

pub record SipDialogRequest : Type 0 where
  pub operation_id : ℕ
  pub method : SipDialogMethod
  pub call_id : Text
  pub content_type : Option Text
  pub body : List ℕ

pub record SipDialogSnapshot : Type 0 where
  pub call_id : Text
  pub local_uri : Text
  pub remote_uri : Text
  pub local_tag : Text
  pub remote_tag : Text
  pub local_cseq : ℕ
  pub remote_target : Text
  pub route_set : List Text
  pub protocol : SipTransportProtocol
  pub association_id : ℕ
  pub local_addr : SocketAddr
  pub remote_addr : SocketAddr

pub record SipRestoredDialogRequest : Type 0 where
  pub operation_id : ℕ
  pub method : SipDialogMethod
  pub snapshot : SipDialogSnapshot
  pub content_type : Option Text
  pub body : List ℕ

pub record SipInviteResponse : Type 0 where
  pub call_id : Text
  pub status_code : ℕ
  pub reason : Option Text
  pub content_type : Option Text
  pub body : List ℕ

pub data SipRuntimeEventKind : Type 0 where
  request_received response_sent runtime_fault auth_lookup_required : SipRuntimeEventKind
  registered unregistered auth_rejected outbound_response : SipRuntimeEventKind
  incoming_invite transport_closed : SipRuntimeEventKind
  unknown : ℤ → SipRuntimeEventKind

pub record SipRuntimeEvent : Type 0 where
  pub event_id : ℕ
  pub kind : SipRuntimeEventKind
  pub protocol : Option SipTransportProtocol
  pub status_code : Option ℕ
  pub pj_status : ℤ
  pub method : Option Text
  pub call_id : Option Text
  pub cseq : Option ℕ
  pub content_type : Option Text
  pub body : List ℕ
  pub local_addr : Option SocketAddr
  pub remote_addr : Option SocketAddr
  pub lookup_id : Option ℕ
  pub device_id : Option Text
  pub realm : Option Text
  pub expires_seconds : Option ℕ
  pub contact : Option Text
  pub user_agent : Option Text
  pub gb_version : Option Text
  pub operation_id : Option ℕ
  pub association_id : Option ℕ
  pub from_header : Option Text
  pub to_header : Option Text
  pub subject : Option Text
  pub event : Option Text
  pub subscription_state : Option Text
  pub dialog_snapshot : Option SipDialogSnapshot

pub record SipTransmit : Type 0 where
  pub send_id : ℕ
  pub transport_id : ℕ
  pub association_id : ℕ
  pub protocol : SipTransportProtocol
  pub payload : List ℕ
  pub local_addr : SocketAddr
  pub remote_addr : SocketAddr
