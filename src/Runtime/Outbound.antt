-- ===== src/Runtime/Outbound.antt =====
-- `send_message`, `send_invite` and `send_subscribe` of src/runtime.rs: requests outside a dialog.
use gmv_pjsip.Prelude.{
  ℕ, Bool, true, false, not, ◌&&◌, ◌||◌, [], ◌∷◌, ◌++◌, Option, none, some, ltb, ◌==◌,
  if◌then◌else◌, is_empty, any, all, contains,
}
use gmv_pjsip.Error.{invalid_config, Result, ◌>>◌, fail_if}
use gmv_pjsip.Text.{Text, codes, strip_prefix, split_once, as_bytes, is_ascii_digit}
use gmv_pjsip.Runtime.Types.{SipOutboundMessage, SipOutboundInvite, SipOutboundSubscribe}
use gmv_pjsip.Runtime.Ffi.{
  Shim, ShimCall, OutboundMessage, OutboundInvite, OutboundSubscribe, transport_id, string_view,
  bytes_view, optional_view,
}
use gmv_pjsip.Runtime.Sequence.{next_sip_cseq}
use gmv_pjsip.Runtime.State.{SipRuntime, invoke, checked}
use gmv_pjsip.Runtime.Checks.{
  has_nul, has_control, is_some_and, is_none, lacks_association, max_cseq,
}

-- The checks of `send_message`.
unfoldable pub check_message : Bool → SipOutboundMessage → Result (Unit {0})
check_message stopped m = do
  fail_if stopped (invalid_config "cannot send MESSAGE after runtime stop")
  fail_if (m.operation_id == 0) (invalid_config "operation_id must be non-zero")
  fail_if (lacks_association m.protocol m.association_id)
      (invalid_config "outbound MESSAGE requires a valid UDP/TCP association")
  fail_if
      (is_empty m.target_uri
        || is_empty m.from_uri
        || not (contains b'/' m.content_type)
        || has_nul m.target_uri
        || is_some_and m.to_uri (λ value. is_empty value || has_nul value)
        || has_nul m.from_uri
        || has_nul m.content_type)
      (invalid_config "target_uri, optional to_uri, from_uri, and content_type must be valid")

-- `message.to_uri.as_deref().unwrap_or(&message.target_uri)`
abbrev pub to_uri_or : Option Text → Text → Text
to_uri_or none target_uri = target_uri
to_uri_or (some to_uri) target_uri = to_uri

unfoldable pub message_request : ℕ → SipOutboundMessage → OutboundMessage
message_request cseq m = record {
  operation_id = m.operation_id;
  association_id = m.association_id;
  transport = transport_id m.protocol;
  cseq = cseq;
  target_uri = string_view m.target_uri;
  to_uri = string_view (to_uri_or m.to_uri m.target_uri);
  from_uri = string_view m.from_uri;
  content_type = string_view m.content_type;
  body = bytes_view m.body;
}

-- The checks of `send_invite`.
unfoldable pub check_invite : Bool → SipOutboundInvite → Result (Unit {0})
check_invite stopped i = do
  fail_if stopped (invalid_config "cannot send INVITE after runtime stop")
  fail_if (i.operation_id == 0) (invalid_config "operation_id must be non-zero")
  fail_if (lacks_association i.protocol i.association_id)
      (invalid_config "outbound INVITE requires a valid UDP/TCP association")
  fail_if
      (is_empty i.target_uri
        || is_empty i.from_uri
        || is_empty i.contact_uri
        || is_empty i.sdp
        || is_empty i.identity.call_id
        || is_empty i.identity.local_tag
        || i.identity.local_cseq == 0
        || ltb max_cseq i.identity.local_cseq
        || has_nul i.target_uri
        || has_nul i.from_uri
        || has_nul i.contact_uri
        || has_nul i.sdp
        || has_control i.identity.call_id
        || has_control i.identity.local_tag
        || is_some_and i.subject has_nul)
      (invalid_config "INVITE identity, target_uri, from_uri, contact_uri, and SDP are required")

abbrev pub in_brackets : Text → Text
in_brackets uri = b'<' ∷ (uri ++ b'>' ∷ [])

-- The host of a `sip:` URI: `strip_prefix("sip:")`, then what follows the first `@`.
unfoldable pub sip_host : Text → Option Text
sip_host target_uri = elim (strip_prefix (codes "sip:") target_uri) [
  | none ↦ none
  | some value ↦ elim (split_once b'@' value) [ none ↦ none | some (_, host) ↦ some host ]
]

-- The channel that a subject names: what stands before its first `:`.
unfoldable pub subject_channel : Option Text → Option Text
subject_channel none = none
subject_channel (some subject) = elim (split_once b':' subject) [
  | none ↦ none
  | some (channel_id, _) ↦ some channel_id
]

-- The last part of `invite_to_uri`, with the host and the channel found.
unfoldable pub to_uri_of : Text → Option Text → Option Text → Text
to_uri_of target_uri (some host) (some channel_id) =
    if is_empty channel_id || not (all is_ascii_digit (as_bytes channel_id))
    then in_brackets target_uri
    else in_brackets (codes "sip:" ++ (channel_id ++ b'@' ∷ host))
to_uri_of target_uri _ _ = in_brackets target_uri

unfoldable pub invite_to_uri : Text → Option Text → Text
unfolding to_uri_of
invite_to_uri target_uri subject =
    to_uri_of target_uri (sip_host target_uri) (subject_channel subject)

unfoldable pub invite_request : SipOutboundInvite → OutboundInvite
invite_request i = record {
  operation_id = i.operation_id;
  association_id = i.association_id;
  transport = transport_id i.protocol;
  local_cseq = i.identity.local_cseq;
  call_id = string_view i.identity.call_id;
  local_tag = string_view i.identity.local_tag;
  target_uri = string_view i.target_uri;
  to_uri = string_view (invite_to_uri i.target_uri i.subject);
  from_uri = string_view i.from_uri;
  contact_uri = string_view i.contact_uri;
  subject = optional_view i.subject;
  sdp = string_view i.sdp;
}

-- The checks of `send_subscribe`. A request with no Call-ID is an initial one.
unfoldable pub check_subscribe : Bool → SipOutboundSubscribe → Result (Unit {0})
check_subscribe stopped s = do
  fail_if stopped (invalid_config "cannot send SUBSCRIBE after runtime stop")
  fail_if (s.operation_id == 0 || is_empty s.event)
      (invalid_config "operation_id and event are required")
  fail_if (lacks_association s.protocol s.association_id)
      (invalid_config "outbound SUBSCRIBE requires a valid UDP/TCP association")
  fail_if
      (is_none s.call_id
        && (is_empty s.target_uri
            || is_empty s.from_uri
            || is_empty s.contact_uri
            || s.expires == 0))
      (invalid_config "initial SUBSCRIBE requires target_uri, from_uri, contact_uri, and expires")
  fail_if (not (is_empty s.body) && not (contains b'/' s.content_type))
      (invalid_config "SUBSCRIBE body requires content_type")
  fail_if
      (any has_nul (s.target_uri ∷ s.from_uri ∷ s.contact_uri ∷ s.event ∷ s.content_type ∷ [])
        || is_some_and s.call_id (λ value. is_empty value || has_nul value))
      (invalid_config "SUBSCRIBE strings must contain no NUL byte")

unfoldable pub subscribe_request : ℕ → SipOutboundSubscribe → OutboundSubscribe
subscribe_request local_cseq s = record {
  operation_id = s.operation_id;
  association_id = s.association_id;
  transport = transport_id s.protocol;
  local_cseq = local_cseq;
  target_uri = string_view s.target_uri;
  from_uri = string_view s.from_uri;
  contact_uri = string_view s.contact_uri;
  call_id = optional_view s.call_id;
  event = string_view s.event;
  expires = s.expires;
  content_type = string_view s.content_type;
  body = bytes_view s.body;
}

-- The counter after a request, and the CSeq of the request: a new one where `initial`, else zero.
unfoldable pub initial_cseq : Bool → ℕ → ℕ × ℕ
initial_cseq true sequence = next_sip_cseq sequence
initial_cseq false sequence = (sequence, 0)

module _ {shim : Shim} where
  unfoldable pub send_message :
      SipRuntime shim → SipOutboundMessage → Result (Unit {0}) × SipRuntime shim
  unfolding check_message message_request
  send_message rt m = checked (check_message rt.stopped m) rt (
      let (sequence, cseq) = next_sip_cseq rt.sip_cseq in
      invoke "send_message" (ShimCall.send_message (message_request cseq m))
        (record rt { sip_cseq = sequence }))

  unfoldable pub send_invite :
      SipRuntime shim → SipOutboundInvite → Result (Unit {0}) × SipRuntime shim
  unfolding check_invite invite_request
  send_invite rt i =
      checked (check_invite rt.stopped i) rt
        (invoke "send_invite" (ShimCall.send_invite (invite_request i)) rt)

  unfoldable pub send_subscribe :
      SipRuntime shim → SipOutboundSubscribe → Result (Unit {0}) × SipRuntime shim
  unfolding check_subscribe subscribe_request
  send_subscribe rt s = checked (check_subscribe rt.stopped s) rt (
      let (sequence, cseq) = initial_cseq (is_none s.call_id) rt.sip_cseq in
      invoke "send_subscribe" (ShimCall.send_subscribe (subscribe_request cseq s))
        (record rt { sip_cseq = sequence }))
