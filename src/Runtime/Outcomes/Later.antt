-- ===== src/Runtime/Outcomes/Later.antt =====
-- What the operations of src/runtime.rs inside a dialog, and on sources, come to on every branch.
use gmv_pjsip.Error.{Result}
use gmv_pjsip.Runtime.Types.{SipDialogRequest, SipRestoredDialogRequest, SipRecoverySource}
use gmv_pjsip.Runtime.Ffi.{Shim, ShimCall, DialogRequest, RestoredDialogRequest, RecoverySource}
use gmv_pjsip.Runtime.State.{SipRuntime}
use gmv_pjsip.Runtime.Dialog.{dialog_request, send_dialog_request, send_restored_dialog_request}
use gmv_pjsip.Runtime.Sources.{recovery_request, allow_recovery_source}
use gmv_pjsip.Runtime.Accepts.Later.{
  CanSendInDialog, check_dialog_request_iff, CanRecover, check_recovery_iff,
}
use gmv_pjsip.Runtime.Requests.Later.{
  IsDialogRequest, dialog_request-IsDialogRequest, IsRestored, IsRecovery,
  recovery_request-IsRecovery,
}
use gmv_pjsip.Runtime.Outcomes.{Called, invoke-Called, Outcome, checked-Outcome}

module _ {shim : Shim} where
  abbrev SentInDialog :
      SipRuntime shim → SipDialogRequest → Result (Unit {0}) × SipRuntime shim → Type 0
  SentInDialog rt r result =
      (request : DialogRequest) × IsDialogRequest r request
      × Called "send_dialog_request" (ShimCall.send_dialog_request request) rt.sip_cseq rt result

  -- `send_dialog_request`, for each runtime and request. Either the runtime is active, the operation
  -- and the Call-ID are given, the texts hold no NUL byte, and an INFO has a body and a content type
  -- with a `/`; then the shim is called once with a request that shows every part of it. Or one of these
  -- fails; then the caller gets an error, and the runtime and the shim are as they were.
  pub send_dialog_request-Outcome :
      (rt : SipRuntime shim) (r : SipDialogRequest)
      → Outcome (CanSendInDialog rt.stopped r) (SentInDialog rt r) rt (send_dialog_request rt r)
  unfolding send_dialog_request
  send_dialog_request-Outcome rt r =
      let call = ShimCall.send_dialog_request (dialog_request r) in
      checked-Outcome (SentInDialog rt r) _ rt _ (check_dialog_request_iff rt.stopped r) (λ c. (
        dialog_request r,
        dialog_request-IsDialogRequest r,
        invoke-Called "send_dialog_request" call rt.sip_cseq rt,
      ))

  abbrev pub SentRestored :
      SipRuntime shim → SipRestoredDialogRequest → Result (Unit {0}) × SipRuntime shim → Type 0
  SentRestored rt r result =
      (request : RestoredDialogRequest) × IsRestored r request
      × Called "send_restored_dialog_request" (ShimCall.send_restored_dialog_request request)
          rt.sip_cseq rt result

  abbrev pub Allowed :
      SipRuntime shim → SipRecoverySource → Result (Unit {0}) × SipRuntime shim → Type 0
  Allowed rt s result =
      (source : RecoverySource) × IsRecovery s source
      × Called "allow_recovery_source" (ShimCall.allow_recovery_source source) rt.sip_cseq rt result

  -- `allow_recovery_source`, for each runtime and source. Either the runtime is active, the source has
  -- UDP or TCP, its texts, a valid order of registration and a lifetime of 1 to 2^32 - 1 milliseconds;
  -- then the shim is called once with a source that shows its transport, device, address and order of
  -- registration, and its lifetime in whole milliseconds, and the caller hears of the status. Or one of
  -- these fails; then the caller gets an error, and the runtime and the shim are as they were.
  pub allow_recovery_source-Outcome :
      (rt : SipRuntime shim) (s : SipRecoverySource)
      → Outcome (CanRecover rt.stopped s) (Allowed rt s) rt (allow_recovery_source rt s)
  unfolding allow_recovery_source
  allow_recovery_source-Outcome rt s =
      let call = ShimCall.allow_recovery_source (recovery_request s) in
      checked-Outcome (Allowed rt s) _ rt _ (check_recovery_iff rt.stopped s) (λ c. (
        recovery_request s,
        recovery_request-IsRecovery rt.stopped s c,
        invoke-Called "allow_recovery_source" call rt.sip_cseq rt,
      ))
