-- ===== src/Runtime/State.antt =====
-- `SipRuntime` of src/runtime.rs, and the way in which every operation ends in a call of the shim.
use Prim.Native.String.{String}
use gmv_pjsip.Prelude.{ℕ, ◌/◌, ◌^◌, ◌-◌, Bool, List, ltb, ◌==◌, if◌then◌else◌}
use gmv_pjsip.Prelude.Int.{ℤ, is_zero}
use gmv_pjsip.Error.{invalid_duration, pjsip_error, Result, ok, err}
use gmv_pjsip.Transport.{SipTransportProtocol, SocketAddr}
use gmv_pjsip.Runtime.Types.{SipRuntimeEvent}
use gmv_pjsip.Runtime.Ffi.{Shim, ShimCall}

abbrev pub u32_max : ℕ
u32_max = 2 ^ 32 - 1

-- `RuntimeIoCommand` of src/io.rs; the result of a send is a number of bytes or a status.
pub data SendResult : Type 0 where
  sent : ℕ → SendResult
  failed : ℤ → SendResult

pub data RuntimeIoCommand : Type 0 where
  receive : ℕ → SipTransportProtocol → SocketAddr → SocketAddr → List ℕ → RuntimeIoCommand
  send_done : ℕ → SendResult → RuntimeIoCommand
  transport_closed : ℕ → SipTransportProtocol → SocketAddr → SocketAddr → ℤ → RuntimeIoCommand

pub record SipRuntime (shim : Shim) : Type 0 where
  pub raw : shim.State
  pub stopped : Bool
  -- The events sent to the receiver by this thread, the last one first.
  pub events : List SipRuntimeEvent
  -- The queue of commands from the socket tasks, oldest first.
  pub io_commands : List RuntimeIoCommand
  -- The process-wide counter SIP_CSEQ.
  pub sip_cseq : ℕ

module _ {shim : Shim} where
  -- `let status = unsafe { gmv_sip_runtime_...(self.raw, ...) }` and the test of the status.
  unfoldable pub invoke : String → ShimCall → SipRuntime shim → Result (Unit {0}) × SipRuntime shim
  invoke operation call rt =
      let (status, raw) = shim.invoke call rt.raw in
      (
        if is_zero status then ok tt else err (pjsip_error operation status),
        record rt { raw = raw },
      )

  -- An operation whose checks come first: a refusal changes nothing.
  unfoldable pub checked :
      Result (Unit {0})
      → SipRuntime shim
      → Result (Unit {0}) × SipRuntime shim
      → Result (Unit {0}) × SipRuntime shim
  checked (err e) rt done = (err e, rt)
  checked (ok _) rt done = done

-- `Duration::as_millis`
abbrev pub as_millis : ℕ → ℕ
as_millis duration = duration / 1000000

unfoldable pub duration_millis : String → ℕ → Result ℕ
duration_millis name duration =
    if as_millis duration == 0
    then err (invalid_duration name "must be at least one millisecond")
    else if ltb u32_max (as_millis duration)
    then err (invalid_duration name "exceeds the C ABI range")
    else ok (as_millis duration)
