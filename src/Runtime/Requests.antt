-- ===== src/Runtime/Requests.antt =====
-- What a structure for the C shim has to say of the request that src/runtime.rs was given: a description
-- apart from the code that fills the structure. Here is what the descriptions share.
pub mod Outbound
pub mod Later
use gmv_pjsip.Prelude.{
  ℕ, suc, ◌≤◌, ◌<◌, ◌≡◌, ◌≢◌, ◌⊎◌, refl, ap, inl, inr, append_assoc, Bool, true, false, List, [],
  ◌∷◌, ◌++◌, Option, none, some, arith, all, contains,
}
use gmv_pjsip.Text.{Text, codes, as_bytes, is_ascii_digit, strip_prefix}
use gmv_pjsip.Text.Parts.{split_once-append}
use gmv_pjsip.Transport.{SipTransportProtocol, udp, tcp}
use gmv_pjsip.Runtime.Types.{SipOutboundMessage, SipOutboundInvite, SipOutboundSubscribe}
use gmv_pjsip.Runtime.Ffi.{
  StringView, null, view, transport_id, optional_view, OutboundMessage, OutboundInvite,
  OutboundSubscribe,
}
use gmv_pjsip.Runtime.Sequence.{max_sip_cseq, next_sip_cseq}
use gmv_pjsip.Runtime.Outbound.{
  in_brackets, message_request, invite_to_uri, to_uri_of, sip_host, subject_channel, invite_request,
  initial_cseq, subscribe_request,
}
use gmv_pjsip.Runtime.Checks.{is_none}
use gmv_pjsip.Runtime.Accepts.{IsRoutable, CanSendMessage, CanInvite, CanSubscribe}

-- The view shows the text, or is null where no text is given.
abbrev pub Shows : Text → StringView → Type 0
Shows t v = v ≡ view (as_bytes t)

abbrev pub ShowsIfGiven : Option Text → StringView → Type 0
ShowsIfGiven none v = v ≡ null
ShowsIfGiven (some t) v = Shows t v

-- The number of the transport: 1 for UDP, 2 for TCP, and no other.
abbrev pub IsTransport : SipTransportProtocol → ℕ → Type 0
IsTransport protocol k = ((protocol ≡ udp) × (k ≡ 1)) ⊎ ((protocol ≡ tcp) × (k ≡ 2))

pub route-IsTransport :
    (p : SipTransportProtocol) (a : ℕ) → IsRoutable p a → IsTransport p (transport_id p)
route-IsTransport p a r = ground arith

pub optional_view-ShowsIfGiven : (t : Option Text) → ShowsIfGiven t (optional_view t)
optional_view-ShowsIfGiven none = refl
optional_view-ShowsIfGiven (some t) = refl

-- The CSeq number behind another: one more, and 1 behind the last one of SIP.
abbrev pub Follows : ℕ → ℕ → Type 0
Follows c n = ((c < max_sip_cseq) × (n ≡ suc c)) ⊎ ((max_sip_cseq ≤ c) × (n ≡ 1))

pub next_sip_cseq-Follows :
    (c : ℕ) → Follows c (next_sip_cseq c).1 × ((next_sip_cseq c).0 ≡ (next_sip_cseq c).1)
unfolding next_sip_cseq
next_sip_cseq-Follows c = ground arith
