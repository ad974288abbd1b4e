-- ===== src/Runtime/Accepts.antt =====
-- Which requests src/runtime.rs accepts, said apart from the order of its checks.
pub mod Later
use gmv_pjsip.Prelude.{
  ℕ, ◌≤◌, ◌<◌, ◌≡◌, ◌≢◌, ◌⊎◌, ◌↔◌, Bool, true, false, [], Option, none, some, arith, contains,
}
use gmv_pjsip.Error.{ok}
use gmv_pjsip.Text.{Text, codes, eq_text_iff}
use gmv_pjsip.Transport.{SipTransportProtocol, udp, tcp}
use gmv_pjsip.Runtime.Types.{
  SipOutboundMessage, SipOutboundInvite, SipOutboundSubscribe, SipInviteResponse,
}
use gmv_pjsip.Runtime.Checks.{has_nul, has_control, max_cseq}
use gmv_pjsip.Runtime.Outbound.{check_message, check_invite, check_subscribe}
use gmv_pjsip.Runtime.Dialog.{check_response, is_sdp}

-- UDP, or TCP over an association that exists.
abbrev pub IsRoutable : SipTransportProtocol → ℕ → Type 0
IsRoutable protocol association_id = (protocol ≡ udp) ⊎ ((protocol ≡ tcp) × (association_id ≢ 0))

abbrev pub IsName : Text → Type 0
IsName t = (t ≢ []) × (has_nul t ≡ false)

abbrev pub IfGiven {ℓ} : {A : Type ℓ} → Option A → (A → Type 0) → Type 0
IfGiven none P = Unit
IfGiven (some a) P = P a

pub record CanSendMessage (stopped : Bool) (m : SipOutboundMessage) : Type 0 where
  pub active : stopped ≡ false
  pub operation : m.operation_id ≢ 0
  pub route : IsRoutable m.protocol m.association_id
  pub target : IsName m.target_uri
  pub to : IfGiven m.to_uri IsName
  pub from : IsName m.from_uri
  pub content : (contains b'/' m.content_type ≡ true) × (has_nul m.content_type ≡ false)

-- `send_message` passes its checks exactly when the runtime is active, the operation has a number,
-- the association is usable, and the URIs and the content type are.
pub check_message_iff :
    (stopped : Bool) (m : SipOutboundMessage)
    → (check_message stopped m ≡ ok tt) ↔ CanSendMessage stopped m
unfolding check_message
check_message_iff stopped m = ground arith

pub record CanRespond (stopped : Bool) (r : SipInviteResponse) : Type 0 where
  pub active : stopped ≡ false
  pub call : IsName r.call_id
  pub final : (200 ≤ r.status_code) × (r.status_code ≤ 699)
  pub answer :
      r.status_code < 300 → (r.content_type ≡ some (codes "application/sdp")) × (r.body ≢ [])
  pub reason_text : IfGiven r.reason (λ t. has_nul t ≡ false)
  pub content : IfGiven r.content_type (λ t. has_nul t ≡ false)

is_sdp_iff : (c : Option Text) → (is_sdp c ≡ true) ↔ (c ≡ some (codes "application/sdp"))
is_sdp_iff none = ground arith
is_sdp_iff (some t) = ground (arith, eq_text_iff t (codes "application/sdp"))

-- `respond_invite` passes its checks exactly for final responses of an active runtime, and a 2xx
-- response only with a session description: content type `application/sdp` and a body.
pub check_response_iff :
    (stopped : Bool) (r : SipInviteResponse)
    → (check_response stopped r ≡ ok tt) ↔ CanRespond stopped r
unfolding check_response
check_response_iff stopped r = ground (arith, is_sdp_iff r.content_type)

pub record CanInvite (stopped : Bool) (i : SipOutboundInvite) : Type 0 where
  pub active : stopped ≡ false
  pub operation : i.operation_id ≢ 0
  pub route : IsRoutable i.protocol i.association_id
  pub target : IsName i.target_uri
  pub from : IsName i.from_uri
  pub contact : IsName i.contact_uri
  pub session : IsName i.sdp
  pub call : (i.identity.call_id ≢ []) × (has_control i.identity.call_id ≡ false)
  pub tag : (i.identity.local_tag ≢ []) × (has_control i.identity.local_tag ≡ false)
  pub cseq : (1 ≤ i.identity.local_cseq) × (i.identity.local_cseq ≤ max_cseq)
  pub subject_text : IfGiven i.subject (λ t. has_nul t ≡ false)

-- `send_invite` passes its checks exactly when the runtime is active, the association is usable, the
-- texts are there and free of NUL bytes, and the dialog's identity is free of line breaks too and has
-- a CSeq number of SIP.
pub check_invite_iff :
    (stopped : Bool) (i : SipOutboundInvite)
    → (check_invite stopped i ≡ ok tt) ↔ CanInvite stopped i
unfolding check_invite
check_invite_iff stopped i = ground arith

pub record CanSubscribe (stopped : Bool) (s : SipOutboundSubscribe) : Type 0 where
  pub active : stopped ≡ false
  pub operation : s.operation_id ≢ 0
  pub route : IsRoutable s.protocol s.association_id
  pub named : IsName s.event
  pub initial :
      s.call_id ≡ none
      → (s.target_uri ≢ []) × (s.from_uri ≢ []) × (s.contact_uri ≢ []) × (s.expires ≢ 0)
  pub refresh : IfGiven s.call_id IsName
  pub content : (s.body ≡ []) ⊎ (contains b'/' s.content_type ≡ true)
  pub target_text : has_nul s.target_uri ≡ false
  pub from_text : has_nul s.from_uri ≡ false
  pub contact_text : has_nul s.contact_uri ≡ false
  pub content_text : has_nul s.content_type ≡ false

-- `send_subscribe` passes its checks exactly so: an initial request needs the three URIs and a time of
-- expiry, a later one the Call-ID of its dialog.
pub check_subscribe_iff :
    (stopped : Bool) (s : SipOutboundSubscribe)
    → (check_subscribe stopped s ≡ ok tt) ↔ CanSubscribe stopped s
unfolding check_subscribe
check_subscribe_iff stopped s = ground arith
