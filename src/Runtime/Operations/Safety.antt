-- ===== src/Runtime/Operations/Safety.antt =====
-- Whatever the runtime is asked to do, the shim sees well-formed calls alone.
use Prim.Native.String.{String}
use gmv_pjsip.Prelude.{
  ℕ, ◌≡◌, refl, Bool, true, false, List, [], ◌∷◌, ◌++◌, arith, inl, inr, Bool-cases,
}
use gmv_pjsip.Prelude.Int.{ℤ, is_zero}
use gmv_pjsip.Error.{Result, ok, err, Result-cases}
use gmv_pjsip.Transport.{SipTransportProtocol}
use gmv_pjsip.Runtime.Types.{SipIncomingInviteAllow}
use gmv_pjsip.Runtime.Ffi.{Shim, ShimCall}
use gmv_pjsip.Runtime.State.{
  SipRuntime, SendResult, RuntimeIoCommand, receive, send_done, transport_closed, invoke, checked,
}
use gmv_pjsip.Runtime.Lifecycle.{handle_command, handle_commands, drain_io_commands}
use gmv_pjsip.Runtime.Lifecycle
use gmv_pjsip.Runtime.Sources
use gmv_pjsip.Runtime.Packets
use gmv_pjsip.Runtime.Boundary.{WellFormed}
use gmv_pjsip.Runtime.Boundary.Sources.{allow_request-AllowOk}
use gmv_pjsip.Runtime.Boundary.Packets.{
  packet_request-PacketOk, IsStatus, sent_bytes_of-IsSentBytes,
}
use gmv_pjsip.Runtime.Operations.{Operation}

-- The statuses that the socket tasks report are `i32`.
abbrev pub IsReport : RuntimeIoCommand → Type 0
IsReport (send_done send_id result) = IsStatus result
IsReport _ = Unit

abbrev pub AllReports : List RuntimeIoCommand → Type 0
AllReports [] = Unit {0}
AllReports (c ∷ cs) = IsReport c × AllReports cs

abbrev pub Reports : List Operation → Type 0
Reports [] = Unit {0}
Reports (Operation.enqueue command ∷ os) = IsReport command × Reports os
Reports (_ ∷ os) = Reports os

pub AllReports-concat :
    (cs : List RuntimeIoCommand) (c : RuntimeIoCommand)
    → AllReports cs
    → IsReport c
    → AllReports (cs ++ c ∷ [])
AllReports-concat [] c h k = (k, tt)
AllReports-concat (d ∷ cs) c h k = (h.0, AllReports-concat cs c h.1 k)

-- P is kept by every well-formed call.
abbrev pub Keeps : (shim : Shim) → (shim.State → Type 0) → Type 0
Keeps shim P = (call : ShimCall) (s : shim.State) → WellFormed call → P s → P (shim.invoke call s).1

module _ {shim : Shim} (P : shim.State → Type 0) where
  -- The shim's state satisfies P, and the queue holds reports.
  pub record Safe (rt : SipRuntime shim) : Type 0 where
    pub state : P rt.raw
    pub queue : AllReports rt.io_commands

  pub checked-Safe :
      (check : Result (Unit {0})) (rt : SipRuntime shim)
      (done : Result (Unit {0}) × SipRuntime shim)
      → Safe rt
      → (check ≡ ok tt → Safe done.1)
      → Safe (checked check rt done).1
  unfolding checked
  checked-Safe (err e) rt done s k = s
  checked-Safe (ok tt) rt done s k = k refl

  module _ (keeps : Keeps shim P) where
    pub invoke-Safe :
        (operation : String) (call : ShimCall) (rt : SipRuntime shim)
        → WellFormed call
        → Safe rt
        → Safe (invoke operation call rt).1
    unfolding invoke
    invoke-Safe operation call rt w s = record {
      state = keeps call rt.raw w s.state;
      queue = s.queue;
    }

    complete_send-Safe :
        (rt : SipRuntime shim) (send_id : ℕ) (result : SendResult)
        → IsStatus result
        → Safe rt
        → Safe (Packets.complete_send rt send_id result).1
    unfolding Packets.complete_send
    complete_send-Safe rt send_id result i s = checked-Safe _ rt _ s λ h.
        elim (Result-cases (Packets.sent_bytes_of result)) [
          | inl (e, refused) ↦ rw refused s
          | inr (bytes, reported) ↦ rw reported (
              invoke-Safe _ _ rt
                (ground (arith, h), sent_bytes_of-IsSentBytes result bytes i reported) s)
        ]

    pub close_transport-Safe :
        (rt : SipRuntime shim) (association_id : ℕ) (protocol : SipTransportProtocol) (status : ℤ)
        → Safe rt
        → Safe (Packets.close_transport rt association_id protocol status).1
    unfolding Packets.close_transport
    close_transport-Safe rt association_id protocol status s =
        checked-Safe _ rt _ s λ h. invoke-Safe _ _ rt (ground (arith, h), ground (arith, h)) s

    handle_command-Safe :
        (rt : SipRuntime shim) (c : RuntimeIoCommand)
        → IsReport c
        → Safe rt
        → Safe (handle_command rt c)
    unfolding handle_command Packets.receive_packet
    handle_command-Safe rt (receive association_id protocol local_addr remote_addr payload) i s =
        checked-Safe _ rt _ s λ h. invoke-Safe _ _ rt (packet_request-PacketOk _ _ _ _ _ _ h) s
    handle_command-Safe rt (send_done send_id result) i s = complete_send-Safe rt send_id result i s
    handle_command-Safe rt (transport_closed association_id protocol local_addr remote_addr status)
          i s =
        let s' = close_transport-Safe rt association_id protocol status s in
        record { state = s'.state; queue = s'.queue }

    handle_commands-Safe :
        (cs : List RuntimeIoCommand) (rt : SipRuntime shim)
        → AllReports cs
        → Safe rt
        → Safe (handle_commands rt cs)
    unfolding handle_commands
    handle_commands-Safe [] rt i s = s
    handle_commands-Safe (c ∷ cs) rt i s =
        handle_commands-Safe cs (handle_command rt c) i.1 (handle_command-Safe rt c i.0 s)

    pub poll_when-Safe :
        (stopped : Bool) (rt : SipRuntime shim) → Safe rt → Safe (Lifecycle.poll_when stopped rt).1
    unfolding Lifecycle.poll_when drain_io_commands
    poll_when-Safe true rt s = s
    poll_when-Safe false rt s = invoke-Safe "runtime_poll" ShimCall.poll (drain_io_commands rt) tt (
        handle_commands-Safe rt.io_commands (record rt { io_commands = [] }) s.queue
          (record { state = s.state; queue = tt }))

    pub stop_when-Safe :
        (stopped : Bool) (rt : SipRuntime shim) → Safe rt → Safe (Lifecycle.stop_when stopped rt).1
    unfolding Lifecycle.stop_when Lifecycle.stop_with
    stop_when-Safe true rt s = s
    stop_when-Safe false rt s =
        let kept = keeps ShimCall.stop rt.raw tt s.state in
        elim (Bool-cases (is_zero (shim.invoke ShimCall.stop rt.raw).0)) [
          | inl e ↦ rw e (record { state = kept; queue = s.queue })
          | inr e ↦ rw e (record { state = kept; queue = s.queue })
        ]

    pub allow_incoming_invite-Safe :
        (rt : SipRuntime shim) (a : SipIncomingInviteAllow)
        → Safe rt
        → Safe (Sources.allow_incoming_invite rt a).1
    unfolding Sources.allow_incoming_invite
    allow_incoming_invite-Safe rt a s = elim (Result-cases (Sources.check_allow rt.stopped a)) [
      | inl (e, refused) ↦ rw (refused, Sources.allow_incoming_invite) s
      | inr (ttl_ms, passed) ↦
          rw (passed, Sources.allow_incoming_invite)
            (invoke-Safe _ _ rt (allow_request-AllowOk rt.stopped a ttl_ms passed) s)
    ]
