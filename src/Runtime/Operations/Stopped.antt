-- ===== src/Runtime/Operations/Stopped.antt =====
-- What a stopped runtime still does.
use gmv_pjsip.Prelude.{◌≡◌, refl, ◌∙◌, Bool, true, false, List, [], ◌∷◌, arith}
use gmv_pjsip.Runtime.Ffi.{Shim}
use gmv_pjsip.Runtime.State.{SipRuntime, checked}
use gmv_pjsip.Runtime.Lifecycle
use gmv_pjsip.Runtime.Outbound
use gmv_pjsip.Runtime.Dialog
use gmv_pjsip.Runtime.Sources
use gmv_pjsip.Runtime.Packets
use gmv_pjsip.Runtime.Operations.{Operation, step, run}

abbrev pub is_removal : Operation → Bool
is_removal (Operation.remove_registered_source device_id) = true
is_removal _ = false

abbrev pub NoRemoval : List Operation → Type 0
NoRemoval [] = Unit {0}
NoRemoval (o ∷ os) = (is_removal o ≡ false) × NoRemoval os

module _ {shim : Shim} where
  step_stopped :
      (rt : SipRuntime shim) (o : Operation)
      → rt.stopped ≡ true
      → is_removal o ≡ false
      → ((step rt o).raw ≡ rt.raw)
        × ((step rt o).stopped ≡ true)
        × ((step rt o).sip_cseq ≡ rt.sip_cseq)
        × ((step rt o).events ≡ rt.events)
  unfolding step checked Lifecycle.stop Lifecycle.poll Packets.complete_auth_lookup
      Packets.close_transport Sources.allow_registered_source Sources.allow_recovery_source
      Sources.allow_incoming_invite Outbound.send_message Outbound.send_invite
      Outbound.send_subscribe Dialog.send_dialog_request Dialog.send_restored_dialog_request
      Dialog.respond_invite
  step_stopped rt (Operation.enqueue c) h n = ground arith
  step_stopped rt (Operation.remove_registered_source d) h n = cc
  step_stopped rt _ h n = ground arith

  -- Once the runtime has stopped, no operation but `remove_registered_source` reaches the shim, sends
  -- an event or takes a CSeq number, in whatever order they come; and the runtime stays stopped.
  pub run_stopped :
      (os : List Operation) (rt : SipRuntime shim)
      → rt.stopped ≡ true
      → NoRemoval os
      → ((run rt os).raw ≡ rt.raw)
        × ((run rt os).stopped ≡ true)
        × ((run rt os).sip_cseq ≡ rt.sip_cseq)
        × ((run rt os).events ≡ rt.events)
  unfolding run
  run_stopped [] rt h n = (refl, h, refl, refl)
  run_stopped (o ∷ os) rt h n =
      let (raw, stopped, cseq, events) = step_stopped rt o h n.0 in
      let (raw', stopped', cseq', events') = run_stopped os (step rt o) stopped n.1 in
      (raw' ∙ raw, stopped', cseq' ∙ cseq, events' ∙ events)
