-- ===== src/Runtime/Callbacks.antt =====
-- The callbacks that src/runtime.rs hands to the shim: `runtime_event_callback`, `runtime_send_callback`
-- and `runtime_log_callback`; the classifier of faults, and the identity of an INVITE. A null pointer is
-- `none`; the sizes of the structures are those of the generated bindings, and parameters.
pub mod Delivery
pub mod Snapshot
use gmv_pjsip.Prelude.{
  ℕ, ◌-◌, ◌^◌, Bool, true, false, not, ◌||◌, List, [], ◌∷◌, ◌++◌, Option, none, some, ltb, leb,
  ◌==◌, if◌then◌else◌, is_empty, length,
}
use gmv_pjsip.Prelude.Int.{ℤ, pos, negsuc, is_zero}
use gmv_pjsip.Prelude.Options.{◌>>=◌}
use gmv_pjsip.Text.{Text, from_utf8_lossy, lines, trim_end_by}
use gmv_pjsip.Transport.{SipTransportProtocol, SocketAddr, udp, tcp}
use gmv_pjsip.Transport.Parse.{parse_socket_addr, parse_ip}
use gmv_pjsip.Runtime.Types.{
  SipDialogSnapshot, SipInviteIdentity, SipRuntimeEvent, SipRuntimeEventKind, SipTransmit,
  request_received, response_sent, runtime_fault, auth_lookup_required, registered, unregistered,
  auth_rejected, outbound_response, incoming_invite, unknown,
}
use gmv_pjsip.Runtime.Ffi.{StringView, null, view}
use gmv_pjsip.Runtime.Sequence.{next_sip_cseq}
use gmv_pjsip.Runtime.Copies.{SipEvent, SendPacket, abi_version, copy_event, copy_packet}

-- The channel of events: those sent, the last one first, and whether the receiver still exists.
pub record EventState : Type 0 where
  pub events : List SipRuntimeEvent
  pub receiving : Bool

-- The bounded channel to the socket tasks, oldest first.
pub record TransmitState : Type 0 where
  pub queue : List SipTransmit
  pub capacity : ℕ
  pub receiving : Bool

abbrev send_event : SipRuntimeEvent → EventState → EventState
send_event e s = if s.receiving then record s { events = e ∷ s.events } else s

-- `sender.try_send(transmit)`: the status, and the channel.
unfoldable pub try_send : SipTransmit → TransmitState → ℤ × TransmitState
try_send t s =
    if not s.receiving || leb s.capacity (length s.queue)
    then (negsuc 0, s)
    else (pos 0, record s { queue = s.queue ++ (t ∷ []) })

module _ (event_size packet_size : ℕ) where
  unfoldable pub runtime_event_callback : Option SipEvent → Option EventState → Option EventState
  unfolding copy_event
  runtime_event_callback none user_data = user_data
  runtime_event_callback (some e) none = none
  runtime_event_callback (some e) (some state) =
      if not (e.version == abi_version) || ltb e.size event_size
      then some state
      else some (send_event (copy_event e) state)

  send_copied : Option SipTransmit → TransmitState → ℤ × Option TransmitState
  unfolding try_send
  send_copied none state = (negsuc 0, some state)
  send_copied (some t) state = let (status, state') = try_send t state in (status, some state')

  unfoldable pub runtime_send_callback :
      Option SendPacket → Option TransmitState → ℤ × Option TransmitState
  unfolding copy_packet send_copied
  runtime_send_callback none user_data = (negsuc 0, user_data)
  runtime_send_callback (some p) none = (negsuc 0, none)
  runtime_send_callback (some p) (some state) =
      if not (p.version == abi_version) || ltb p.size packet_size
      then (negsuc 0, some state)
      else send_copied (copy_packet p) state

-- The line that goes to the log, if any.
unfoldable pub runtime_log_callback : StringView → Option Text
runtime_log_callback null = none
runtime_log_callback (view bytes) =
    if is_empty bytes
    then none
    else some (trim_end_by (λ c. c == b'\r' || c == b'\n' || c == 0) (from_utf8_lossy bytes))

-- `SipRuntimeFaultKind`, and `fault_kind` by the classifier `gmv_pjsip_status_is_not_found`.
pub data SipRuntimeFaultKind : Type 0 where
  not_found other : SipRuntimeFaultKind

unfoldable pub fault_kind : (ℤ → ℤ) → SipRuntimeEvent → SipRuntimeFaultKind
fault_kind status_is_not_found e =
    if is_zero (status_is_not_found e.pj_status) then other else not_found

-- `SipInviteIdentity::generate`, with the two random texts and SIP_CSEQ.
unfoldable pub generate : Text → Text → ℕ → ℕ × SipInviteIdentity
unfolding next_sip_cseq
generate call_id local_tag sequence =
    let (sequence', local_cseq) = next_sip_cseq sequence in
    (sequence', record { call_id = call_id; local_tag = local_tag; local_cseq = local_cseq })
