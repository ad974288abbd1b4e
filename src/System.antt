-- ===== src/System.antt =====
-- The socket tasks of src/io.rs and the runtime of src/runtime.rs together: the thread of the runtime
-- drains the queue that the tasks fill, and its callback fills the channel that they empty.
pub mod Closed
pub mod Sends
use gmv_pjsip.Prelude.{ℕ, suc, ◌≡◌, List, [], ◌∷◌, ◌++◌, Option}
use gmv_pjsip.Transport.{SocketAddr}
use gmv_pjsip.Runtime.Ffi.{Shim}
use gmv_pjsip.Runtime.State.{SipRuntime, RuntimeIoCommand}
use gmv_pjsip.Runtime.Lifecycle.{handle_command}
use gmv_pjsip.Io.Connections.{Sockets, tcp_accepted, Step, started}

-- The oldest command goes from the queue to the runtime.
abbrev pub handed_over : Sockets → RuntimeIoCommand → List RuntimeIoCommand → Sockets
handed_over s c cs = record s {
  tasks = record s.tasks { commands = cs };
  taken = s.taken ++ (c ∷ []);
}

-- The runs of both, from a runtime that has sent no event. The number counts the connections accepted.
-- A method of the runtime that handles no command does not send an event itself.
pub data Run (shim : Shim) (capacity : ℕ) : ℕ → Sockets → SipRuntime shim → Type 0 where
  begin : (rt : SipRuntime shim) → rt.events ≡ [] → Run shim capacity 0 (started capacity) rt
  accept :
      {n : ℕ} {s : Sockets} {rt : SipRuntime shim} (remote_addr : SocketAddr)
      → Run shim capacity n s rt
      → Run shim capacity (suc n) (tcp_accepted remote_addr s) rt
  sockets :
      {n : ℕ} {s t : Sockets} {rt : SipRuntime shim}
      → Step s t
      → t.taken ≡ s.taken
      → Run shim capacity n s rt
      → Run shim capacity n t rt
  drain :
      {n : ℕ} {s : Sockets} {rt : SipRuntime shim} (c : RuntimeIoCommand)
      (cs : List RuntimeIoCommand)
      → s.tasks.commands ≡ c ∷ cs
      → Run shim capacity n s rt
      → Run shim capacity n (handed_over s c cs) (handle_command rt c)
  call :
      {n : ℕ} {s : Sockets} {rt rt' : SipRuntime shim}
      → rt'.events ≡ rt.events
      → Run shim capacity n s rt
      → Run shim capacity n s rt'
