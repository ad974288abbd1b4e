-- ===== src/Runtime/Lifecycle.antt =====
-- `stop`, `poll`, `drain_io_commands`, `shutdown` and the destructor of src/runtime.rs.
use gmv_pjsip.Prelude.{ℕ, Bool, true, false, List, [], ◌∷◌, none, some, if◌then◌else◌}
use gmv_pjsip.Prelude.Int.{ℤ, is_zero}
use gmv_pjsip.Error.{invalid_config, pjsip_error, Result, ok, err}
use gmv_pjsip.Transport.{SipTransportProtocol, SocketAddr}
use gmv_pjsip.Runtime.Types.{SipRuntimeEvent, transport_closed}
use gmv_pjsip.Runtime.Ffi.{Shim, ShimCall}
use gmv_pjsip.Runtime.State.{SipRuntime, RuntimeIoCommand, receive, send_done, invoke}
use gmv_pjsip.Runtime.Packets.{receive_packet, complete_send, close_transport}

unfoldable pub closed_event :
    ℕ → SipTransportProtocol → SocketAddr → SocketAddr → ℤ → SipRuntimeEvent
closed_event association_id protocol local_addr remote_addr status = record {
  event_id = 0;
  kind = transport_closed;
  protocol = some protocol;
  status_code = none;
  pj_status = status;
  method = none;
  call_id = none;
  cseq = none;
  content_type = none;
  body = [];
  local_addr = some local_addr;
  remote_addr = some remote_addr;
  lookup_id = none;
  device_id = none;
  realm = none;
  expires_seconds = none;
  contact = none;
  user_agent = none;
  gb_version = none;
  operation_id = none;
  association_id = some association_id;
  from_header = none;
  to_header = none;
  subject = none;
  event = none;
  subscription_state = none;
  dialog_snapshot = none;
}

module _ {shim : Shim} where
  -- One round of `drain_io_commands`. Errors are logged and go no further.
  unfoldable pub handle_command : SipRuntime shim → RuntimeIoCommand → SipRuntime shim
  unfolding closed_event
  handle_command rt (receive association_id protocol local_addr remote_addr payload) =
      (receive_packet rt association_id protocol local_addr remote_addr payload).1
  handle_command rt (send_done send_id result) = (complete_send rt send_id result).1
  handle_command rt
        (RuntimeIoCommand.transport_closed association_id protocol local_addr remote_addr status) =
      let rt' = (close_transport rt association_id protocol status).1 in
      record rt' {
        events = closed_event association_id protocol local_addr remote_addr status ∷ rt'.events;
      }

  -- The commands that are in the queue when the loop runs, oldest first.
  unfoldable pub handle_commands : SipRuntime shim → List RuntimeIoCommand → SipRuntime shim
  handle_commands rt [] = rt
  handle_commands rt (c ∷ cs) = handle_commands (handle_command rt c) cs

  unfoldable pub drain_io_commands : SipRuntime shim → SipRuntime shim
  unfolding handle_commands
  drain_io_commands rt = handle_commands (record rt { io_commands = [] }) rt.io_commands

  -- The flag is `self.stopped`, here and in `stop_when`.
  unfoldable pub poll_when : Bool → SipRuntime shim → Result (Unit {0}) × SipRuntime shim
  poll_when true rt = (err (invalid_config "cannot poll after runtime stop"), rt)
  poll_when false rt = invoke "runtime_poll" ShimCall.poll (drain_io_commands rt)

  unfoldable pub poll : SipRuntime shim → Result (Unit {0}) × SipRuntime shim
  unfolding poll_when
  poll rt = poll_when rt.stopped rt

  -- A runtime is marked as stopped only when the shim has stopped.
  unfoldable pub stop_with : ℤ × shim.State → SipRuntime shim → Result (Unit {0}) × SipRuntime shim
  stop_with (status, raw) rt =
      if is_zero status
      then (ok tt, record rt { raw = raw; stopped = true })
      else (err (pjsip_error "runtime_stop" status), record rt { raw = raw })

  unfoldable pub stop_when : Bool → SipRuntime shim → Result (Unit {0}) × SipRuntime shim
  unfolding stop_with
  stop_when true rt = (ok tt, rt)
  stop_when false rt = stop_with (shim.invoke ShimCall.stop rt.raw) rt

  unfoldable pub stop : SipRuntime shim → Result (Unit {0}) × SipRuntime shim
  unfolding stop_when
  stop rt = stop_when rt.stopped rt

  -- `Drop::drop`: an active runtime is stopped, whatever the status, and the handle is destroyed.
  unfoldable pub drop_runtime : SipRuntime shim → shim.State
  drop_runtime rt =
      let raw = if rt.stopped then rt.raw else (shim.invoke ShimCall.stop rt.raw).1 in
      (shim.invoke ShimCall.destroy raw).1

  -- `shutdown` takes the runtime: it is stopped and then dropped.
  unfoldable pub shutdown : SipRuntime shim → Result (Unit {0}) × shim.State
  unfolding stop drop_runtime
  shutdown rt = let (result, rt') = stop rt in (result, drop_runtime rt')
