-- ===== src/Runtime/Boundary/Outbound.antt =====
-- Requests outside a dialog that pass the checks are well formed.
use gmv_pjsip.Prelude.{ℕ, ◌≡◌, Bool, arith}
use gmv_pjsip.Error.{ok}
use gmv_pjsip.Text.{as_bytes-is_empty}
use gmv_pjsip.Runtime.Types.{SipOutboundMessage, SipOutboundInvite, SipOutboundSubscribe}
use gmv_pjsip.Runtime.Outbound.{
  check_message, message_request, check_invite, invite_request, check_subscribe, subscribe_request,
  to_uri_or, initial_cseq,
}
use gmv_pjsip.Runtime.Ffi.{or_empty}
use gmv_pjsip.Runtime.Checks.{is_none}
use gmv_pjsip.Runtime.Sequence.{next_sip_cseq_range}
use gmv_pjsip.Runtime.Boundary.{MessageOk, InviteOk, SubscribeOk, IsCseq}

pub message_request-MessageOk :
    (stopped : Bool) (cseq : ℕ) (m : SipOutboundMessage)
    → IsCseq cseq
    → check_message stopped m ≡ ok tt
    → MessageOk (message_request cseq m)
unfolding check_message message_request
message_request-MessageOk stopped cseq m n h = ground (
  arith,
  as_bytes-is_empty m.target_uri,
  as_bytes-is_empty m.from_uri,
  as_bytes-is_empty m.content_type,
  as_bytes-is_empty (to_uri_or m.to_uri m.target_uri),
)

pub invite_request-InviteOk :
    (stopped : Bool) (i : SipOutboundInvite)
    → check_invite stopped i ≡ ok tt
    → InviteOk (invite_request i)
unfolding check_invite invite_request
invite_request-InviteOk stopped i h = ground (
  arith,
  as_bytes-is_empty i.target_uri,
  as_bytes-is_empty i.from_uri,
  as_bytes-is_empty i.contact_uri,
  as_bytes-is_empty i.sdp,
  as_bytes-is_empty i.identity.call_id,
  as_bytes-is_empty i.identity.local_tag,
)

pub subscribe_request-SubscribeOk :
    (stopped : Bool) (sequence : ℕ) (s : SipOutboundSubscribe)
    → check_subscribe stopped s ≡ ok tt
    → SubscribeOk (subscribe_request (initial_cseq (is_none s.call_id) sequence).1 s)
unfolding check_subscribe subscribe_request initial_cseq
subscribe_request-SubscribeOk stopped sequence s h = ground (
  arith,
  as_bytes-is_empty s.target_uri,
  as_bytes-is_empty s.event,
  as_bytes-is_empty (or_empty s.call_id),
  next_sip_cseq_range sequence,
)
