-- ===== src/Runtime/Operations/History.antt =====
-- Every operation keeps what every well-formed call of the shim keeps, and so does a history.
use gmv_pjsip.Prelude.{List, [], ◌∷◌}
use gmv_pjsip.Runtime.Ffi.{Shim}
use gmv_pjsip.Runtime.State.{SipRuntime}
use gmv_pjsip.Runtime.Sequence.{next_sip_cseq_range}
use gmv_pjsip.Runtime.Lifecycle.{handle_command, handle_commands, drain_io_commands}
use gmv_pjsip.Runtime.Lifecycle
use gmv_pjsip.Runtime.Outbound
use gmv_pjsip.Runtime.Dialog
use gmv_pjsip.Runtime.Sources
use gmv_pjsip.Runtime.Packets
use gmv_pjsip.Runtime.Boundary.Outbound.{
  message_request-MessageOk, invite_request-InviteOk, subscribe_request-SubscribeOk,
}
use gmv_pjsip.Runtime.Boundary.Dialog.{
  dialog_request-DialogOk, restored_request-RestoredOk, response_request-ResponseOk,
}
use gmv_pjsip.Runtime.Boundary.Sources.{
  registered_request-RegisteredOk, recovery_request-RecoveryOk, check_device_id-Filled,
}
use gmv_pjsip.Runtime.Boundary.Packets.{lookup_request-WellFormed}
use gmv_pjsip.Runtime.Operations.{Operation, step, run}
use gmv_pjsip.Runtime.Operations.Safety.{
  AllReports, Reports, AllReports-concat, Safe, Keeps, checked-Safe, invoke-Safe,
  close_transport-Safe, poll_when-Safe, stop_when-Safe, allow_incoming_invite-Safe,
}

Reports-tail : (o : Operation) (os : List Operation) → Reports (o ∷ os) → Reports os
Reports-tail (Operation.enqueue c) os r = r.1
Reports-tail _ os r = r

module _ {shim : Shim} (P : shim.State → Type 0) (keeps : Keeps shim P) where
  step-Safe :
      (rt : SipRuntime shim) (o : Operation) (os : List Operation)
      → Reports (o ∷ os)
      → Safe P rt
      → Safe P (step rt o)
  unfolding step Lifecycle.stop Lifecycle.poll Packets.complete_auth_lookup
      Sources.allow_registered_source Sources.allow_recovery_source Sources.remove_registered_source
      Outbound.send_message Outbound.send_invite Outbound.send_subscribe Dialog.send_dialog_request
      Dialog.send_restored_dialog_request Dialog.respond_invite
  step-Safe rt (Operation.enqueue c) os i s = record {
    state = s.state;
    queue = AllReports-concat rt.io_commands c s.queue i.0;
  }
  step-Safe rt Operation.stop os i s = stop_when-Safe P keeps rt.stopped rt s
  step-Safe rt Operation.poll os i s = poll_when-Safe P keeps rt.stopped rt s
  step-Safe rt (Operation.complete_auth_lookup lookup_id result) os i s =
      checked-Safe P _ rt _ s λ h.
        invoke-Safe P keeps _ _ rt (lookup_request-WellFormed shim rt.stopped lookup_id result h) s
  step-Safe rt (Operation.close_transport association_id protocol status) os i s =
      close_transport-Safe P keeps rt association_id protocol status s
  step-Safe rt (Operation.allow_registered_source r) os i s =
      checked-Safe P _ rt _ s
        λ h. invoke-Safe P keeps _ _ rt (registered_request-RegisteredOk rt.stopped r h) s
  step-Safe rt (Operation.allow_recovery_source r) os i s =
      checked-Safe P _ rt _ s
        λ h. invoke-Safe P keeps _ _ rt (recovery_request-RecoveryOk rt.stopped r h) s
  step-Safe rt (Operation.remove_registered_source device_id) os i s =
      checked-Safe P _ rt _ s λ h. invoke-Safe P keeps _ _ rt (check_device_id-Filled device_id h) s
  step-Safe rt (Operation.allow_incoming_invite a) os i s =
      allow_incoming_invite-Safe P keeps rt a s
  step-Safe rt (Operation.send_message m) os i s = checked-Safe P _ rt _ s λ h.
      invoke-Safe P keeps _ _ _
        (message_request-MessageOk rt.stopped _ m (next_sip_cseq_range rt.sip_cseq) h)
        (record { state = s.state; queue = s.queue })
  step-Safe rt (Operation.send_invite r) os i s =
      checked-Safe P _ rt _ s
        λ h. invoke-Safe P keeps _ _ rt (invite_request-InviteOk rt.stopped r h) s
  step-Safe rt (Operation.send_dialog_request r) os i s =
      checked-Safe P _ rt _ s
        λ h. invoke-Safe P keeps _ _ rt (dialog_request-DialogOk rt.stopped r h) s
  step-Safe rt (Operation.send_restored_dialog_request r) os i s =
      checked-Safe P _ rt _ s
        λ h. invoke-Safe P keeps _ _ rt (restored_request-RestoredOk rt.stopped r h) s
  step-Safe rt (Operation.respond_invite r) os i s =
      checked-Safe P _ rt _ s
        λ h. invoke-Safe P keeps _ _ rt (response_request-ResponseOk rt.stopped r h) s
  step-Safe rt (Operation.send_subscribe r) os i s = checked-Safe P _ rt _ s λ h.
      invoke-Safe P keeps _ _ _ (subscribe_request-SubscribeOk rt.stopped rt.sip_cseq r h)
        (record { state = s.state; queue = s.queue })

  run-Safe :
      (os : List Operation) (rt : SipRuntime shim) → Reports os → Safe P rt → Safe P (run rt os)
  unfolding run
  run-Safe [] rt i s = s
  run-Safe (o ∷ os) rt i s = run-Safe os (step rt o) (Reports-tail o os i) (step-Safe rt o os i s)

  -- Let P be a property of the shim's state that every well-formed call keeps. Then every history of
  -- operations keeps it, refused ones and ones after a stop included, as long as the statuses that
  -- the socket tasks report are 32-bit numbers.
  pub run-keeps :
      (os : List Operation) (rt : SipRuntime shim)
      → Reports os
      → AllReports rt.io_commands
      → P rt.raw
      → P (run rt os).raw
  run-keeps os rt i q p = (run-Safe os rt i (record { state = p; queue = q })).state
