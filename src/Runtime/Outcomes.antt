-- ===== src/Runtime/Outcomes.antt =====
-- What the operations of src/runtime.rs that send do with a request, on every branch: one call of
-- the shim where the request is acceptable, and nothing at all otherwise.
pub mod Later
use Prim.Native.String.{String}
use gmv_pjsip.Prelude.{ℕ, ◌≡◌, ◌≢◌, ◌⊎◌, ◌↔◌, inl, inr, refl, Bool-cases, true, false, ◌==◌, arith}
use gmv_pjsip.Prelude.Int.{ℤ, pos, negsuc, is_zero}
use gmv_pjsip.Error.{Result, ok, err, pjsip_error}
use gmv_pjsip.Runtime.Types.{
  SipOutboundMessage, SipOutboundInvite, SipOutboundSubscribe, SipInviteResponse,
}
use gmv_pjsip.Runtime.Ffi.{
  Shim, ShimCall, OutboundMessage, OutboundInvite, OutboundSubscribe, InviteResponse,
}
use gmv_pjsip.Runtime.Sequence.{next_sip_cseq}
use gmv_pjsip.Runtime.State.{SipRuntime, invoke, checked}
use gmv_pjsip.Runtime.Checks.{is_none}
use gmv_pjsip.Runtime.Outbound.{
  message_request, send_message, send_invite, initial_cseq, subscribe_request, send_subscribe,
}
use gmv_pjsip.Runtime.Dialog.{response_request, respond_invite}
use gmv_pjsip.Runtime.Accepts.{
  CanSendMessage, check_message_iff, CanSubscribe, check_subscribe_iff, CanRespond,
  check_response_iff,
}
use gmv_pjsip.Runtime.Requests.{Follows, next_sip_cseq-Follows}
use gmv_pjsip.Runtime.Requests.Outbound.{
  IsMessage, message_request-IsMessage, IsInvite, Numbers, initial_cseq-Numbers, IsSubscribe,
  subscribe_request-IsSubscribe,
}
use gmv_pjsip.Runtime.Requests.Later.{IsResponse, response_request-IsResponse}

is_zero_iff : (z : ℤ) → (is_zero z ≡ true) ↔ (z ≡ pos 0)
is_zero_iff (pos n) = ground arith
is_zero_iff (negsuc n) = ground arith

module _ {shim : Shim} where
  -- The shim was called once, and the CSeq counter is `counter`, and nothing else of the runtime has
  -- changed. The caller gets no error if the status of the call is zero, and else an error that names
  -- the operation and the status.
  abbrev pub Called :
      String → ShimCall → ℕ → SipRuntime shim → Result (Unit {0}) × SipRuntime shim → Type 0
  Called operation call counter rt result =
      (result.1 ≡ record rt { raw = (shim.invoke call rt.raw).1; sip_cseq = counter })
      × ((((shim.invoke call rt.raw).0 ≡ pos 0) × (result.0 ≡ ok tt))
          ⊎ (((shim.invoke call rt.raw).0 ≢ pos 0)
              × (result.0 ≡ err (pjsip_error operation (shim.invoke call rt.raw).0))))

  pub invoke-Called :
      (operation : String) (call : ShimCall) (counter : ℕ) (rt : SipRuntime shim)
      → Called operation call counter rt (invoke operation call (record rt { sip_cseq = counter }))
  unfolding invoke
  invoke-Called operation call counter rt =
      (refl, ground (arith, is_zero_iff (shim.invoke call rt.raw).0))

  -- Either C holds, and the result is one of those of Done; or C does not hold, the caller gets an
  -- error, and the runtime is as it was, the shim and the CSeq counter included.
  abbrev pub Outcome :
      Type 0
      → (Result (Unit {0}) × SipRuntime shim → Type 0)
      → SipRuntime shim
      → Result (Unit {0}) × SipRuntime shim
      → Type 0
  Outcome C Done rt result = (C × Done result) ⊎ ((¬ C) × (result.0 ≢ ok tt) × (result.1 ≡ rt))

  pub checked-Outcome :
      {C : Type 0} (Done : Result (Unit {0}) × SipRuntime shim → Type 0) (check : Result (Unit {0}))
      (rt : SipRuntime shim) (done : Result (Unit {0}) × SipRuntime shim)
      → (check ≡ ok tt) ↔ C
      → (C → Done done)
      → Outcome C Done rt (checked check rt done)
  unfolding checked
  checked-Outcome Done (ok tt) rt done iff meant = let c = iff.0 refl in inl (c, meant c)
  checked-Outcome Done (err e) rt done iff meant = inr ((λ c. cc (iff.1 c)), (λ h. cc), refl)

  abbrev pub SentMessage :
      SipRuntime shim → SipOutboundMessage → Result (Unit {0}) × SipRuntime shim → Type 0
  SentMessage rt m result =
      (cseq : ℕ) × (request : OutboundMessage) × Follows rt.sip_cseq cseq
      × IsMessage cseq m request
      × Called "send_message" (ShimCall.send_message request) cseq rt result

  -- `send_message`, for each runtime and message. Either the runtime is active and the operation's
  -- number, the association, the URIs and the content type are valid; then the CSeq number that follows
  -- the counter is taken, the shim is called once with a request that shows this number and every part
  -- of the message, the target standing in for a missing To URI, and the caller hears of the status.
  -- Or one of these fails; then the caller gets an error, and the runtime with its CSeq counter and the
  -- shim are as they were.
  pub send_message-Outcome :
      (rt : SipRuntime shim) (m : SipOutboundMessage)
      → Outcome (CanSendMessage rt.stopped m) (SentMessage rt m) rt (send_message rt m)
  unfolding send_message
  send_message-Outcome rt m =
      let (follows, same) = next_sip_cseq-Follows rt.sip_cseq in
      let cseq = (next_sip_cseq rt.sip_cseq).1 in
      let call = ShimCall.send_message (message_request cseq m) in
      checked-Outcome (SentMessage rt m) _ rt _ (check_message_iff rt.stopped m) (λ c. (
        cseq,
        message_request cseq m,
        follows,
        message_request-IsMessage rt.stopped cseq m c,
        rw same (invoke-Called "send_message" call cseq rt),
      ))

  abbrev pub SentInvite :
      SipRuntime shim → SipOutboundInvite → Result (Unit {0}) × SipRuntime shim → Type 0
  SentInvite rt i result =
      (request : OutboundInvite) × IsInvite i request
      × Called "send_invite" (ShimCall.send_invite request) rt.sip_cseq rt result

  abbrev pub SentSubscribe :
      SipRuntime shim → SipOutboundSubscribe → Result (Unit {0}) × SipRuntime shim → Type 0
  SentSubscribe rt s result =
      (counter : ℕ) × (cseq : ℕ) × (request : OutboundSubscribe) × Numbers s.call_id rt.sip_cseq
        counter cseq
      × IsSubscribe cseq s request
      × Called "send_subscribe" (ShimCall.send_subscribe request) counter rt result

  -- `send_subscribe`, for each runtime and SUBSCRIBE. Either the runtime is active and the request is
  -- valid; then the shim is called once with a request that shows every part of it, and the caller
  -- hears of the status. An initial request, with no Call-ID, takes the CSeq number that follows the
  -- counter and shows it; one with a Call-ID takes none, and shows zero. Or the request is not valid, or
  -- the runtime not active; then the caller gets an error, and the runtime and the shim are as they
  -- were.
  pub send_subscribe-Outcome :
      (rt : SipRuntime shim) (s : SipOutboundSubscribe)
      → Outcome (CanSubscribe rt.stopped s) (SentSubscribe rt s) rt (send_subscribe rt s)
  unfolding send_subscribe
  send_subscribe-Outcome rt s =
      let counter = (initial_cseq (is_none s.call_id) rt.sip_cseq).0 in
      let cseq = (initial_cseq (is_none s.call_id) rt.sip_cseq).1 in
      let call = ShimCall.send_subscribe (subscribe_request cseq s) in
      checked-Outcome (SentSubscribe rt s) _ rt _ (check_subscribe_iff rt.stopped s) (λ c. (
        counter,
        cseq,
        subscribe_request cseq s,
        initial_cseq-Numbers s.call_id rt.sip_cseq,
        subscribe_request-IsSubscribe rt.stopped cseq s c,
        invoke-Called "send_subscribe" call counter rt,
      ))

  abbrev pub Responded :
      SipRuntime shim → SipInviteResponse → Result (Unit {0}) × SipRuntime shim → Type 0
  Responded rt r result =
      (response : InviteResponse) × IsResponse r response
      × Called "respond_invite" (ShimCall.respond_invite response) rt.sip_cseq rt result

  -- `respond_invite`, for each runtime and response. Either the runtime is active, the status is a
  -- final one, a 2xx status comes with a body of the type `application/sdp`, and the texts are valid;
  -- then the shim is called once with a response that shows the status, the Call-ID, the reason, the
  -- content type and the body, and the caller hears of the shim's status. Or one of these fails; then the
  -- caller gets an error, and the runtime and the shim are as they were.
  pub respond_invite-Outcome :
      (rt : SipRuntime shim) (r : SipInviteResponse)
      → Outcome (CanRespond rt.stopped r) (Responded rt r) rt (respond_invite rt r)
  unfolding respond_invite
  respond_invite-Outcome rt r =
      checked-Outcome (Responded rt r) _ rt _ (check_response_iff rt.stopped r) (λ c. (
        response_request r,
        response_request-IsResponse r,
        invoke-Called "respond_invite" (ShimCall.respond_invite (response_request r)) rt.sip_cseq
            rt,
      ))
