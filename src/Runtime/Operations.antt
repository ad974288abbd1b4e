-- ===== src/Runtime/Operations.antt =====
-- Every operation on a running `SipRuntime` (src/runtime.rs) as one type, and histories of them.
pub mod Safety
pub mod History
pub mod Stopped
use gmv_pjsip.Prelude.{ℕ, Bool, List, [], ◌∷◌, ◌++◌}
use gmv_pjsip.Prelude.Int.{ℤ}
use gmv_pjsip.Error.{Result}
use gmv_pjsip.Text.{Text}
use gmv_pjsip.Transport.{SipTransportProtocol}
use gmv_pjsip.Runtime.Types.{
  SipAuthLookupResult, SipRegisteredSource, SipRecoverySource, SipIncomingInviteAllow,
  SipOutboundMessage, SipOutboundInvite, SipOutboundSubscribe, SipDialogRequest,
  SipRestoredDialogRequest, SipInviteResponse,
}
use gmv_pjsip.Runtime.Ffi.{Shim}
use gmv_pjsip.Runtime.State.{SipRuntime, RuntimeIoCommand}
use gmv_pjsip.Runtime.Outbound
use gmv_pjsip.Runtime.Dialog
use gmv_pjsip.Runtime.Sources
use gmv_pjsip.Runtime.Packets
use gmv_pjsip.Runtime.Lifecycle

-- `enqueue` is a socket task that puts a command into the queue.
pub data Operation : Type 0 where
  enqueue : RuntimeIoCommand → Operation
  stop poll : Operation
  complete_auth_lookup : ℕ → SipAuthLookupResult → Operation
  close_transport : ℕ → SipTransportProtocol → ℤ → Operation
  allow_registered_source : SipRegisteredSource → Operation
  allow_recovery_source : SipRecoverySource → Operation
  remove_registered_source : Text → Operation
  allow_incoming_invite : SipIncomingInviteAllow → Operation
  send_message : SipOutboundMessage → Operation
  send_invite : SipOutboundInvite → Operation
  send_dialog_request : SipDialogRequest → Operation
  send_restored_dialog_request : SipRestoredDialogRequest → Operation
  respond_invite : SipInviteResponse → Operation
  send_subscribe : SipOutboundSubscribe → Operation

module _ {shim : Shim} where
  -- The runtime behind an operation; the caller's result is left out.
  unfoldable pub step : SipRuntime shim → Operation → SipRuntime shim
  step rt (enqueue command) = record rt { io_commands = rt.io_commands ++ command ∷ [] }
  step rt stop = (Lifecycle.stop rt).1
  step rt poll = (Lifecycle.poll rt).1
  step rt (complete_auth_lookup lookup_id result) =
      (Packets.complete_auth_lookup rt lookup_id result).1
  step rt (close_transport association_id protocol status) =
      (Packets.close_transport rt association_id protocol status).1
  step rt (allow_registered_source s) = (Sources.allow_registered_source rt s).1
  step rt (allow_recovery_source s) = (Sources.allow_recovery_source rt s).1
  step rt (remove_registered_source device_id) = (Sources.remove_registered_source rt device_id).1
  step rt (allow_incoming_invite a) = (Sources.allow_incoming_invite rt a).1
  step rt (send_message m) = (Outbound.send_message rt m).1
  step rt (send_invite i) = (Outbound.send_invite rt i).1
  step rt (send_dialog_request r) = (Dialog.send_dialog_request rt r).1
  step rt (send_restored_dialog_request r) = (Dialog.send_restored_dialog_request rt r).1
  step rt (respond_invite r) = (Dialog.respond_invite rt r).1
  step rt (send_subscribe s) = (Outbound.send_subscribe rt s).1

  unfoldable pub run : SipRuntime shim → List Operation → SipRuntime shim
  unfolding step
  run rt [] = rt
  run rt (o ∷ os) = run (step rt o) os
